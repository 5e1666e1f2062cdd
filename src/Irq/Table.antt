-- ===== src/Irq/Table.antt =====
-- An interrupt reaches the handler that was registered for it last.
use embed_template.Prelude.{
  ℕ, ◌+◌, ◌-◌, ◌≤◌, ◌<◌, ◌≡◌, inl, inr, refl, ap₂, arith, Bool, true, false, ltb, leb, ◌&&◌, ◌==◌,
  if◌then◌else◌, List, [], ◌∷◌, Option, some, none, Bool-cases,
}
use embed_template.Irq.{
  IrqTable, Outcome, called, ignored, fault, init_table, register_interrupt, call_handler,
}

-- The handlers as a map, and how many registrations there is room for.
pub record Registry : Type 0 where
  pub handler_of : ℕ → Option ℕ
  pub room : ℕ

abbrev pub no_handlers : Registry
no_handlers = record { handler_of = λ i. none; room = 32 }

-- A registration is refused without a handler, for an interrupt that is too large, or without room.
unfoldable pub enter : ℕ → ℕ → Option ℕ → Registry → Registry × Bool
enter max_irq_id irq_id none r = (r, false)
enter max_irq_id irq_id (some h) r =
    if leb irq_id max_irq_id && ltb 0 r.room
    then (
      record {
        handler_of = λ i. if irq_id == i then some h else r.handler_of i;
        room = r.room - 1;
      },
      true,
    )
    else (r, false)

-- The registrations one after the other, with their results.
unfoldable pub register_all : ℕ → List (ℕ × Option ℕ) → IrqTable → IrqTable × List Bool
register_all max_irq_id [] t = (t, [])
register_all max_irq_id ((irq_id, h) ∷ rs) t =
    let (t', ok) = register_interrupt max_irq_id irq_id h t in
    let (t'', oks) = register_all max_irq_id rs t' in (t'', ok ∷ oks)

unfoldable pub enter_all : ℕ → List (ℕ × Option ℕ) → Registry → Registry × List Bool
enter_all max_irq_id [] r = (r, [])
enter_all max_irq_id ((irq_id, h) ∷ rs) r =
    let (r', ok) = enter max_irq_id irq_id h r in
    let (r'', oks) = enter_all max_irq_id rs r' in (r'', ok ∷ oks)

-- The tables against the map.
pub record IsTable (max_irq_id : ℕ) (t : IrqTable) (r : Registry) : Type 0 where
  pub count : t.irq_count + r.room ≡ 32
  pub missing : (i : ℕ) → i ≤ max_irq_id → r.handler_of i ≡ none → t.irq_lookup_table i ≡ 255
  pub places :
      (i h : ℕ)
      → i ≤ max_irq_id
      → r.handler_of i ≡ some h
      → (t.irq_lookup_table i < t.irq_count) × (t.irq_handler_table (t.irq_lookup_table i) ≡ some h)

init_table-IsTable :
    (max_irq_id : ℕ) (t : IrqTable) → IsTable max_irq_id (init_table max_irq_id t) no_handlers
unfolding init_table
init_table-IsTable max_irq_id t = record {
  count = refl;
  missing = λ i h e. ground arith;
  places = λ i h le e. absurd (cc e);
}

register_interrupt-IsTable :
    (max_irq_id irq_id : ℕ) (h : Option ℕ) (t : IrqTable) (r : Registry)
    → IsTable max_irq_id t r
    → IsTable max_irq_id
        (register_interrupt max_irq_id irq_id h t).0
        (enter max_irq_id irq_id h r).0
      × ((register_interrupt max_irq_id irq_id h t).1 ≡ (enter max_irq_id irq_id h r).1)
unfolding register_interrupt enter
register_interrupt-IsTable max_irq_id irq_id none t r v = (v, refl)
register_interrupt-IsTable max_irq_id irq_id (some h) t r v =
    elim (Bool-cases (leb irq_id max_irq_id && ltb 0 r.room)) [
      | inr refused ↦ elim (Bool-cases (ltb max_irq_id irq_id)) [
        | inl large ↦ rw (refused, large) (v, refl)
        | inr fits ↦
            let full : leb 32 t.irq_count ≡ true = ground (arith, v.count) in
            rw (refused, fits, full) (v, refl)
      ]
      | inl accepted ↦
          let fits : ltb max_irq_id irq_id ≡ false = ground arith in
          let free : leb 32 t.irq_count ≡ false = ground (arith, v.count) in
          rw (accepted, fits, free)
            (
              record {
                count = ground (arith, v.count);
                missing = λ i le e. ground (arith, v.missing i);
                places = λ i k le e. (ground (arith, v.places i k), ground (arith, v.places i k));
              },
              refl,
            )
    ]

register_all-IsTable :
    (max_irq_id : ℕ) (rs : List (ℕ × Option ℕ)) (t : IrqTable) (r : Registry)
    → IsTable max_irq_id t r
    → IsTable max_irq_id (register_all max_irq_id rs t).0 (enter_all max_irq_id rs r).0
      × ((register_all max_irq_id rs t).1 ≡ (enter_all max_irq_id rs r).1)
unfolding register_all enter_all
register_all-IsTable max_irq_id [] t r v = (v, refl)
register_all-IsTable max_irq_id ((irq_id, h) ∷ rs) t r v =
    let (kept, same) = register_interrupt-IsTable max_irq_id irq_id h t r v in
    let (all, rest) =
      register_all-IsTable max_irq_id rs (register_interrupt max_irq_id irq_id h t).0
        (enter max_irq_id irq_id h r).0 kept in
    (all, ap₂ (λ b bs. b ∷ bs) same rest)

-- What is called for an interrupt by the map.
abbrev pub expected : Bool → Option ℕ → Outcome
expected safe (some h) = called h
expected true none = ignored
expected false none = fault

call_handler-eq :
    (safe : Bool) (max_irq_id i : ℕ) (t : IrqTable) (r : Registry) (h : Option ℕ)
    → IsTable max_irq_id t r
    → i ≤ max_irq_id
    → r.handler_of i ≡ h
    → call_handler safe i t ≡ expected safe h
unfolding call_handler
call_handler-eq true max_irq_id i t r (some h) v le e = ground (arith, v.places i h le e)
call_handler-eq false max_irq_id i t r (some h) v le e = ground (arith, v.places i h le e, v.count)
call_handler-eq true max_irq_id i t r none v le e = ground (arith, v.missing i le e, v.count)
call_handler-eq false max_irq_id i t r none v le e = ground (arith, v.missing i le e)

-- After the initialisation and any registrations, of which those without a handler, those for an
-- interrupt above the largest and those behind the 32nd that was accepted are refused, an interrupt up to the largest
-- calls the handler that was accepted for it last. One without a handler is ignored with
-- ENABLE_SEFETY_CHECK; without it the call is made from outside the table.
pub call_handler-register_all :
    (safe : Bool) (max_irq_id : ℕ) (rs : List (ℕ × Option ℕ)) (t : IrqTable) (irq_id : ℕ)
    → irq_id ≤ max_irq_id
    → let (t', oks) = register_all max_irq_id rs (init_table max_irq_id t) in
      let (r', oks') = enter_all max_irq_id rs no_handlers in
      (call_handler safe irq_id t' ≡ expected safe (r'.handler_of irq_id)) × (oks ≡ oks')
call_handler-register_all safe max_irq_id rs t irq_id le =
    let (v, same) =
      register_all-IsTable max_irq_id rs (init_table max_irq_id t) no_handlers
        (init_table-IsTable max_irq_id t) in
    (call_handler-eq safe max_irq_id irq_id _ _ _ v le refl, same)
