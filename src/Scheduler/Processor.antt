-- ===== src/Scheduler/Processor.antt =====
-- ext/prosody/src/scheduler/processor.rs: the Ruby task processor. Its `submit` and `stop` methods
-- in Ruby are parameters.
pub mod Stop
use prosody_rb.Base.{
  ℕ, zero, suc, String, Bool, true, false, Option, none, some, List, [], ◌∷◌, Result, ok, err,
  if◌then◌else◌,
}
use prosody_rb.Ruby.{Value, nil, Error, new, runtime_error, lit}
use prosody_rb.Ruby.Effects.{M}

-- `RubyProcessor`: of its fields only the shutdown flag changes.
pub record RubyProcessor : Type 0 where
  pub is_shutdown : Bool

abbrev pub shutting_down : Error
shutting_down = new runtime_error (lit "Processor is shutting down" ∷ [])

-- The block that Ruby runs: the function is taken out on the first call, and later calls give nil.
unfoldable pub run_block :
    {W F : Type 0} → (F → M W Value) → Option F → W → Option F × Result Error Value × W
run_block call none w = (none, ok nil, w)
run_block call (some f) w = (none, (call f w).0, (call f w).1)

-- Runs of the block, one after the other, and what they leave outside.
unfoldable pub run_blocks : {W F : Type 0} → (F → M W Value) → ℕ → Option F → W → W
unfolding run_block
run_blocks call zero block w = w
run_blocks call (suc n) block w =
    let (block', result, w') = run_block call block w in run_blocks call n block' w'

-- `RubyProcessor::new`, once Ruby's processor is started.
abbrev pub new_processor : RubyProcessor
new_processor = record { is_shutdown = false }

-- `RubyProcessor::submit`
unfoldable pub submit :
    {W Task Token : Type 0} → (Task → M W Token) → RubyProcessor → Task → M W Token
submit ruby_submit p task w = if p.is_shutdown then (err shutting_down, w) else ruby_submit task w

module _ {W : Type 0} (ruby_stop : M W (Unit {0})) where
  -- `RubyProcessor::stop`: the flag is set first, by `fetch_or`.
  unfoldable pub stop : RubyProcessor → W → RubyProcessor × Result Error (Unit {0}) × W
  stop p w =
      if p.is_shutdown
      then (record p { is_shutdown = true }, ok tt, w)
      else (record p { is_shutdown = true }, (ruby_stop w).0, (ruby_stop w).1)

  -- `n` calls of `stop`, one after the other.
  unfoldable pub stop_times : ℕ → RubyProcessor → W → RubyProcessor × W
  unfolding stop
  stop_times zero p w = (p, w)
  stop_times (suc n) p w = let (p', r, w') = stop p w in stop_times n p' w'
