-- ===== src/Handler/State/Handles/Tests.antt =====
-- A value whose operations the core refuses for good.
use prosody_rb.Base.{ℕ, ◌≡◌, refl, err, [], ◌∷◌}
use prosody_rb.Ruby.{Value, nil, permanent_state_error, new, lit, Error}
use prosody_rb.Ruby.Effects.{pure}
use prosody_rb.Ruby.Vm.Sample.{sample}
use prosody_rb.Ruby.Vm.{Vm, extract_opentelemetry_context}
use prosody_rb.Handler.State.Handles.{
  ErasedStateError, permanent, applied, ValueState, value_get, value_set, value_clear, value_commit,
  run_state, state_error, ruby_error,
}

abbrev vm : Vm ℕ
vm = sample (λ w. w)

abbrev too_large : ErasedStateError
too_large = record { category = permanent; message = "too large" }

abbrev refusing : ValueState ℕ Value
refusing = record {
  wait_get = λ context. pure (err too_large);
  wait_set = λ item. λ context. pure (err too_large);
  wait_clear = λ context. pure (err too_large);
  wait_commit = λ context. pure (err too_large);
  wait_rollback = λ context. pure applied;
}

abbrev raised : Error
raised = new permanent_state_error (lit "too large" ∷ [])

-- All four raise the core's message, in the class of its category.
refused_get : value_get vm refusing pure (λ item. pure nil) 5 ≡ (err raised, 5)
unfolding value_get run_state state_error ruby_error extract_opentelemetry_context
refused_get = refl

refused_set : value_set vm refusing pure (λ item. pure nil) nil 5 ≡ (err raised, 5)
unfolding value_set run_state state_error ruby_error extract_opentelemetry_context
refused_set = refl

refused_clear : value_clear vm refusing pure (λ item. pure nil) 5 ≡ (err raised, 5)
unfolding value_clear run_state state_error ruby_error extract_opentelemetry_context
refused_clear = refl

refused_commit : value_commit vm refusing pure (λ item. pure nil) 5 ≡ (err raised, 5)
unfolding value_commit run_state state_error ruby_error extract_opentelemetry_context
refused_commit = refl
