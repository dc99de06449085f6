-- ===== src/Scheduler/Processor/Stop.antt =====
-- Stopping a processor, submitting to one that is stopped, and running a task's block.
use prosody_rb.Ruby.{Value}
use prosody_rb.Base.{some, none, ℕ, zero, suc, ◌≡◌, refl, true, err}
use prosody_rb.Ruby.Effects.{M}
use prosody_rb.Scheduler.Processor.{run_blocks, shutting_down, submit, new_processor, stop_times}

module _ {W : Type 0} (ruby_stop : M W (Unit {0})) where
  stop_times-stopped :
      (n : ℕ) (w : W)
      → stop_times ruby_stop n (record { is_shutdown = true }) w
        ≡ (record { is_shutdown = true }, w)
  unfolding stop_times
  stop_times-stopped zero w = refl
  stop_times-stopped (suc n) w = stop_times-stopped n w

  -- However often a new processor is stopped, Ruby's `stop` is called once, also where that call
  -- fails, and a later submission is refused with no call of Ruby.
  pub stop_times-once :
      {Task Token : Type 0} (ruby_submit : Task → M W Token) (n : ℕ) (w : W) (task : Task)
      → let (p, w') = stop_times ruby_stop (suc n) new_processor w in
        (w' ≡ (ruby_stop w).1) × (submit ruby_submit p task w' ≡ (err shutting_down, w'))
  unfolding submit stop_times
  stop_times-once ruby_submit n w task = rw (stop_times-stopped n (ruby_stop w).1) (refl, refl)

module _ {W F : Type 0} (call : F → M W Value) where
  run_blocks-empty : (n : ℕ) (w : W) → run_blocks call n none w ≡ w
  unfolding run_blocks
  run_blocks-empty zero w = refl
  run_blocks-empty (suc n) w = run_blocks-empty n w

  -- However often Ruby runs the block of a task, the task's function is called once, also where it
  -- fails.
  pub run_blocks-once : (n : ℕ) (f : F) (w : W) → run_blocks call (suc n) (some f) w ≡ (call f w).1
  unfolding run_blocks
  run_blocks-once n f w = run_blocks-empty n (call f w).1
