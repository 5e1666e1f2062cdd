-- ===== src/Sim/Modes/Handshake.antt =====
-- The pause handshake, and the interlocks under every command.
use embed_template.Prelude.{ℕ, zero, suc, ◌≡◌, ◌∙◌, ap, sym, refl, Bool, true, false}
use embed_template.Sim.{has}
use embed_template.Sim.Hardware.{Board, tick}
use embed_template.Sim.Modes.{
  Mode, normal, pause, pause_ack, Place, before_tick, paused, Control, is_sim_suspended, sim_pause,
  pause_returns, acknowledged, sim_resume, loop_at, hardware_turn, hardware_turns,
}

-- A simulation past its initialisation.
abbrev pub in_mode : Mode → Place → Bool → ℕ → Board → Control
in_mode mode place resume suspended b = record {
  board = b;
  mode = mode;
  suspended = suspended;
  place = place;
  resume = resume;
}

module _ (s : ℕ) (on : has s 0 ≡ false) where
  tick-lem :
      (m : Mode) (r : Bool) (b : Board)
      → hardware_turn (in_mode m before_tick r s b) ≡ loop_at m (in_mode m before_tick r s (tick b))
  unfolding hardware_turn is_sim_suspended
  tick-lem m r b = rw on refl

  paused-lem :
      (m : Mode) (r : Bool) (b : Board)
      → hardware_turn (in_mode m paused r s b) ≡ loop_at m (in_mode m paused r s b)
  unfolding hardware_turn is_sim_suspended
  paused-lem m r b = rw on refl

  pause-lem :
      (m : Mode) (p : Place) (r : Bool) (b : Board)
      → sim_pause (in_mode m p r s b) ≡ in_mode pause p r s b
  unfolding sim_pause is_sim_suspended
  pause-lem m p r b = rw on refl

  stays_paused :
      (n : ℕ) (b : Board)
      → hardware_turns n (in_mode pause_ack paused true s b) ≡ in_mode pause_ack paused true s b
  unfolding hardware_turns loop_at
  stays_paused zero b = refl
  stays_paused (suc n) b = ap (hardware_turns n) (paused-lem pause_ack true b) ∙ stays_paused n b

  returns-lem :
      (m : Mode) (p : Place) (r : Bool) (b : Board)
      → pause_returns (in_mode m p r s b) ≡ acknowledged m
  unfolding pause_returns is_sim_suspended
  returns-lem m p r b = rw on refl

  turn_acknowledges :
      (r : Bool) (b : Board)
      → hardware_turn (sim_pause (in_mode normal before_tick r s b))
        ≡ in_mode pause_ack paused true s (tick b)
  unfolding loop_at
  turn_acknowledges r b = ap hardware_turn (pause-lem normal before_tick r b) ∙ tick-lem pause r b

  resumes :
      (b : Board)
      → hardware_turn (sim_resume (in_mode pause_ack paused true s b))
        ≡ in_mode normal before_tick false s b
  unfolding sim_resume loop_at
  resumes b = paused-lem normal true b

  two_turns :
      (r : Bool) (b : Board)
      → hardware_turn (hardware_turn (in_mode normal before_tick r s b))
        ≡ in_mode normal before_tick false s (tick (tick b))
  unfolding loop_at
  two_turns r b = ap hardware_turn (tick-lem normal r b) ∙ tick-lem normal false (tick b)

-- `sim_pause` on a simulation that waits for its next tick does not return at once: the hardware
-- task makes this one tick, acknowledges, and `sim_pause` returns. However many turns follow, the
-- plant does not change; after `sim_resume` two turns, one to leave the pause and one tick, bring
-- the simulation to where two turns without the pause would have brought it.
pub pause_is_transparent :
    (n s : ℕ) (r : Bool) (b : Board)
    → has s 0 ≡ false
    → let c = in_mode normal before_tick r s b in
      let held = hardware_turns n (hardware_turn (sim_pause c)) in
      (pause_returns (sim_pause c) ≡ false)
      × (pause_returns (hardware_turn (sim_pause c)) ≡ true)
      × (held ≡ in_mode pause_ack paused true s (tick b))
      × (hardware_turn (hardware_turn (sim_resume held)) ≡ hardware_turn (hardware_turn c))
unfolding loop_at
pause_is_transparent n s r b on =
    let a = turn_acknowledges s on r b in
    let k = ap (hardware_turns n) a ∙ stays_paused s on n (tick b) in
    (
      ap pause_returns (pause-lem s on normal before_tick r b)
          ∙ returns-lem s on pause before_tick r b,
      ap pause_returns a ∙ returns-lem s on pause_ack paused true (tick b),
      k,
      ap (λ t. hardware_turn (hardware_turn (sim_resume t))) k
          ∙ ap hardware_turn (resumes s on (tick b))
          ∙ tick-lem s on normal false (tick b)
          ∙ sym (two_turns s on r b),
    )
