-- ===== src/Util/Runtime/Tests.antt =====
-- Two clients that are made in one process. The world is a count of the tracing set-ups and a list of
-- what was called.
use prosody_rb.Base.{
  ℕ, suc, ◌≡◌, refl, ◌⊎◌, true, false, String, none, some, List, [], ◌∷◌, ok, err,
}
use prosody_rb.Util.Runtime.{Globals, Runtime, ensure_runtime_context, start_tracing}
use prosody_rb.Util.Runtime.Once.{Counts, ensure_runtime_context-once}

abbrev World : Type 0
World = ℕ × List String

abbrev runtime : Runtime ℕ ℕ World
runtime = record {
  has_current = λ w. false;
  enter = λ w. (w.0, "enter" ∷ w.1);
  new_bridge = λ w. (5, (w.0, "bridge" ∷ w.1));
  new_logger = λ b. λ w. (err "no logger", w);
  initialize_tracing = λ logger. λ w. (ok tt, (suc w.0, "tracing" ∷ w.1));
  report = λ error. λ w. (w.0, error ∷ w.1);
}

abbrev starts : World → ℕ
starts w = w.0

starts-Counts : Counts runtime starts
starts-Counts = record {
  enter_law = λ w. refl;
  bridge_law = λ w. refl;
  logger_law = λ b. λ w. refl;
  report_law = λ e. λ w. refl;
  tracing_law = λ l. λ w. refl;
}

abbrev before : Globals ℕ World
before = record { world = (0, []); bridge = none; tracing_init = false }

abbrev after : Globals ℕ World
after = record {
  world = (1, "tracing" ∷ "no logger" ∷ "bridge" ∷ "enter" ∷ []);
  bridge = some 5;
  tracing_init = true;
}

ensure_runtime_context-once_example :
    ((b : ℕ) × (after.bridge ≡ some b))
    × ((before.bridge ≡ none) ⊎ (after.bridge ≡ before.bridge))
    × (after.tracing_init ≡ true)
    × (starts after.world ≡ 1)
    × (ensure_runtime_context runtime (record after { world = (0, []) })
        ≡ (true, record after { world = (0, "enter" ∷ []) }))
unfolding ensure_runtime_context start_tracing
ensure_runtime_context-once_example =
    ensure_runtime_context-once runtime starts starts-Counts before after (0, []) refl
