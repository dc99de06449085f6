-- ===== src/Scheduler/Tasks/Held.antt =====
-- What the queue of the task processor holds.
use mathlib.Core.List.{map}
use prosody_rb.Base.{
  ℕ, Bool, true, false, ◌≡◌, refl, ap, subst, some, List, [], ◌∷◌, ◌++◌, get_elem?, remove,
}
use prosody_rb.Scheduler.Tasks.{
  Command, execute, shutdown, Phase, absent, popping, waiting, ended, killed,
}

-- The tasks in a queue.
abbrev pub executes : List Command → List ℕ
executes [] = []
executes (execute t ∷ q) = t ∷ executes q
executes (shutdown ∷ q) = executes q

-- What the queue holds, by whether the processor was stopped and by what the thread does: only
-- tasks, then tasks and a shutdown behind them, then nothing.
abbrev pub Holds : Bool → Phase → List ℕ → List Command → Type 0
Holds stopped absent running q = ⊥
Holds stopped killed running q = ⊥
Holds false popping running q = (ts : List ℕ) × (q ≡ map execute ts)
Holds true popping running q = (ts : List ℕ) × (q ≡ map execute ts ++ (shutdown ∷ []))
Holds stopped waiting running q = (stopped ≡ true) × (q ≡ [])
Holds stopped ended running q = (stopped ≡ true) × (q ≡ []) × (running ≡ [])

pub executes-append : (q more : List Command) → executes (q ++ more) ≡ executes q ++ executes more
executes-append [] more = refl
executes-append (execute t ∷ q) more = ap (λ ts. t ∷ ts) (executes-append q more)
executes-append (shutdown ∷ q) more = executes-append q more

-- A processor that was not stopped pops commands.
pub unstopped_pops :
    (phase : Phase) (running : List ℕ) (q : List Command)
    → Holds false phase running q
    → phase ≡ popping
unstopped_pops absent running q h = absurd h
unstopped_pops killed running q h = absurd h
unstopped_pops popping running q h = refl
unstopped_pops waiting running q (wrong, _) = cc
unstopped_pops ended running q (wrong, _, _) = cc

pub execute-Holds :
    (stopped : Bool) (running more rest : List ℕ) (t : ℕ) (q : List Command)
    → Holds stopped popping running (execute t ∷ q)
    → Holds stopped popping more q
execute-Holds false running more rest t q ([], e) = cc
execute-Holds false running more rest t q (u ∷ ts, e) = (ts, cc)
execute-Holds true running more rest t q ([], e) = cc
execute-Holds true running more rest t q (u ∷ ts, e) = (ts, cc)

pub shutdown-Holds :
    (stopped : Bool) (running : List ℕ) (q : List Command)
    → Holds stopped popping running (shutdown ∷ q)
    → (stopped ≡ true) × (q ≡ [])
shutdown-Holds false running q ([], e) = cc
shutdown-Holds false running q (u ∷ ts, e) = cc
shutdown-Holds true running q ([], e) = (refl, cc)
shutdown-Holds true running q (u ∷ ts, e) = cc

pub end-Holds :
    (stopped : Bool) (phase : Phase) (running : List ℕ) (q : List Command) (i : ℕ) {t : ℕ}
    → get_elem? running i ≡ some t
    → Holds stopped phase running q
    → Holds stopped phase (remove i running) q
end-Holds stopped absent running q i e h = h
end-Holds stopped killed running q i e h = h
end-Holds false popping running q i e h = h
end-Holds true popping running q i e h = h
end-Holds stopped waiting running q i e h = h
end-Holds stopped ended running q i {t} e (f, g, none_left) =
    let wrong : get_elem? [] i ≡ some t = subst (λ l. get_elem? l i ≡ some t) none_left e in cc
