-- ===== src/Sim/Hardware/Overflow.antt =====
-- The 16-bit power sums of the simulator: where they are exact, and where they wrap.
use embed_template.Prelude.{
  ℕ, ◌+◌, ◌-◌, ◌*◌, ◌/◌, ◌≡◌, ◌≤◌, ◌<◌, ◌∙◌, true, false, not, ◌&&◌, ◌||◌, arith, refl, ap, ap₂,
  if◌then◌else◌,
}
use embed_template.Prelude.Int.{
  ℤ, pos, negsuc, pos_part, neg_part, ◌+ℤ◌, ◌-ℤ◌, ◌≤ℤ◌, ◌<ℤ◌, div_ℤ, to_int16, -ℤ_parts,
}
use native.Mathlib.Nat.{div-le_of_le-mul}
use embed_template.Gpio.Regs.{GpioCtrl}
use embed_template.Sim.{SimCtx}
use embed_template.Sim.Config.{cond_ok, power_ok}
use embed_template.Sim.Hardware.{
  output, net_heat_power, fan1_power, fans_power, cooling_power, apply_physics,
}

-- The sums without the 16-bit stores.
unfoldable pub true_heat : GpioCtrl → SimCtx → ℕ
true_heat gpio c =
    if (output gpio 0 || c.status.is_fan1_failed) && not c.status.is_heater_failed
    then c.phy.heater_power
    else 0

unfoldable pub true_fans : GpioCtrl → SimCtx → ℕ
true_fans gpio c =
    (if output gpio 1 && not c.status.is_fan1_failed then c.phy.heater_power * 3 / 2 else 0)
    + (if output gpio 2 && not c.status.is_fan2_failed then c.phy.heater_power * 4 else 0)

unfoldable pub passive : SimCtx → ℤ
passive c = div_ℤ (c.temp_mc -ℤ c.phy.ambient_temp_mc) c.phy.board_conduct

heat-exact :
    (g : GpioCtrl) (c : SimCtx)
    → c.phy.heater_power ≤ 8000
    → net_heat_power g c ≡ pos (true_heat g c)
unfolding net_heat_power true_heat to_int16 ◌+ℤ◌
heat-exact g c h = ground arith

fans-exact :
    (g : GpioCtrl) (c : SimCtx) → c.phy.heater_power ≤ 5900 → fans_power g c ≡ pos (true_fans g c)
unfolding fans_power fan1_power true_fans to_int16 ◌+ℤ◌
fans-exact g c h = ground arith

difference :
    (c : SimCtx)
    → c.phy.ambient_temp_mc ≤ℤ c.temp_mc
    → c.temp_mc -ℤ c.phy.ambient_temp_mc ≡ pos (pos_part (c.temp_mc -ℤ c.phy.ambient_temp_mc))
unfolding ◌-ℤ◌
difference c lo = ground arith

passive_bound :
    (c : SimCtx)
    → cond_ok c.phy.board_conduct ≡ true
    → c.phy.ambient_temp_mc ≤ℤ c.temp_mc
    → c.temp_mc ≤ℤ pos 215000
    → negsuc 9999 ≤ℤ c.phy.ambient_temp_mc
    → (passive c ≡ pos (pos_part (passive c))) × (pos_part (passive c) ≤ 45)
unfolding passive div_ℤ
passive_bound c k lo hi a =
    let n = pos_part (c.temp_mc -ℤ c.phy.ambient_temp_mc) in
    let r = -ℤ_parts c.temp_mc c.phy.ambient_temp_mc in
    let e : c.temp_mc -ℤ c.phy.ambient_temp_mc ≡ pos n = (difference c lo) in
    let b : n ≤ c.phy.board_conduct * 45 = (ground (arith, r, e, k, lo, hi, a)) in
    rw e (refl, div-le_of_le-mul c.phy.board_conduct b)

-- The conditions that the running simulation keeps.
pub record InRange (c : SimCtx) : Type 0 where
  pub cond : cond_ok c.phy.board_conduct ≡ true
  pub above : c.phy.ambient_temp_mc ≤ℤ c.temp_mc
  pub below : c.temp_mc ≤ℤ pos 215000
  pub ambient : negsuc 9999 ≤ℤ c.phy.ambient_temp_mc

fans_bound : (g : GpioCtrl) (c : SimCtx) → c.phy.heater_power ≤ 5900 → true_fans g c ≤ 32450
unfolding true_fans
fans_bound g c h = ground arith

heat_bound : (g : GpioCtrl) (c : SimCtx) → c.phy.heater_power ≤ 5900 → true_heat g c ≤ 5900
unfolding true_heat
heat_bound g c h = ground arith

cooling_fits :
    (f : ℕ) (p : ℤ)
    → f ≤ 32450
    → p ≡ pos (pos_part p)
    → pos_part p ≤ 45
    → to_int16 (pos f +ℤ p) ≡ pos f +ℤ p
unfolding to_int16 ◌+ℤ◌
cooling_fits f (pos q) h e l = ground arith
cooling_fits f (negsuc q) h e l = ground (arith, ap neg_part e)

energy_fits :
    (t f : ℕ) (p : ℤ)
    → t ≤ 5900
    → f ≤ 32450
    → p ≡ pos (pos_part p)
    → pos_part p ≤ 45
    → to_int16 (pos t -ℤ (pos f +ℤ p)) ≡ pos t -ℤ (pos f +ℤ p)
unfolding to_int16 ◌+ℤ◌ ◌-ℤ◌
energy_fits t f (pos q) k h e l = ground arith
energy_fits t f (negsuc q) k h e l = ground (arith, ap neg_part e)

cooling-exact :
    (g : GpioCtrl) (c : SimCtx)
    → c.phy.heater_power ≤ 5900
    → passive c ≡ pos (pos_part (passive c))
    → pos_part (passive c) ≤ 45
    → cooling_power g c ≡ pos (true_fans g c) +ℤ passive c
unfolding cooling_power passive
cooling-exact g c h e q =
    ap to_int16 (ap (λ t. t +ℤ passive c) (fans-exact g c h))
    ∙ cooling_fits (true_fans g c) (passive c) (fans_bound g c h) e q

-- Up to a heater power of 5900 no 16-bit store of the simulator loses anything: the cooling
-- power is the sum of the fans' and the passive cooling, and the energy balance is the heat less
-- that sum, as integers.
pub powers_exact :
    (g : GpioCtrl) (c : SimCtx)
    → c.phy.heater_power ≤ 5900
    → InRange c
    → (cooling_power g c ≡ pos (true_fans g c) +ℤ passive c)
      × ((apply_physics g c).state.energy_balance
          ≡ pos (true_heat g c) -ℤ (pos (true_fans g c) +ℤ passive c))
unfolding apply_physics
powers_exact g c h v =
    let w = passive_bound c v.cond v.above v.below v.ambient in
    let e = cooling-exact g c h w.0 w.1 in
    (
      e,
      ap to_int16 (ap₂ ◌-ℤ◌ (heat-exact g c (omega arith)) e)
          ∙ energy_fits (true_heat g c) (true_fans g c) (passive c) (heat_bound g c h)
              (fans_bound g c h) w.0 w.1,
    )

cooling_wraps :
    (p q : ℕ)
    → 5960 ≤ p
    → p ≤ 8000
    → q ≤ 45
    → to_int16 (to_int16 (to_int16 (pos 0 +ℤ pos (p * 3 / 2)) +ℤ pos (p * 4)) +ℤ pos q)
      ≡ negsuc (65535 - (p * 3 / 2 + p * 4 + q))
unfolding to_int16 ◌+ℤ◌
cooling_wraps p q h k l = ground arith

both_fans :
    (g : GpioCtrl) (c : SimCtx)
    → output g 1 ≡ true
    → output g 2 ≡ true
    → c.status.is_fan1_failed ≡ false
    → c.status.is_fan2_failed ≡ false
    → cooling_power g c
      ≡ to_int16 (
          to_int16
            (to_int16 (pos 0 +ℤ pos (c.phy.heater_power * 3 / 2)) +ℤ pos (c.phy.heater_power * 4))
          +ℤ passive c)
unfolding cooling_power fans_power fan1_power passive
both_fans g c o1 o2 f1 f2 = rw (o1, o2, f1, f2) refl

no_heat :
    (g : GpioCtrl) (c : SimCtx)
    → output g 0 ≡ false
    → c.status.is_fan1_failed ≡ false
    → net_heat_power g c ≡ pos 0
unfolding net_heat_power
no_heat g c o0 f1 = rw (o0, f1) refl

negative_cooling : (m : ℕ) → m < 32767 → pos 0 <ℤ to_int16 (pos 0 -ℤ negsuc m)
unfolding to_int16 ◌-ℤ◌
negative_cooling m h = ground arith

-- With both fans on and a heater power from 5960 on, which the configuration admits, the
-- cooling power wraps to a negative number, and with the heater off the energy balance is
-- positive: full cooling heats the board.
pub both_fans_heat :
    (g : GpioCtrl) (c : SimCtx)
    → 5960 ≤ c.phy.heater_power
    → power_ok c.phy.heater_power ≡ true
    → InRange c
    → output g 0 ≡ false
    → output g 1 ≡ true
    → output g 2 ≡ true
    → c.status.is_fan1_failed ≡ false
    → c.status.is_fan2_failed ≡ false
    → (cooling_power g c <ℤ pos 0) × (pos 0 <ℤ (apply_physics g c).state.energy_balance)
unfolding apply_physics
both_fans_heat g c h k v o0 o1 o2 f1 f2 =
    let w = passive_bound c v.cond v.above v.below v.ambient in
    let p = c.phy.heater_power in
    let e : cooling_power g c ≡ negsuc (65535 - (p * 3 / 2 + p * 4 + pos_part (passive c))) =
      (both_fans g c o1 o2 f1 f2
        ∙ ap (λ t. to_int16 (to_int16 (to_int16 (pos 0 +ℤ pos (p * 3 / 2)) +ℤ pos (p * 4)) +ℤ t))
            w.0
        ∙ cooling_wraps p (pos_part (passive c)) h (ground (arith, k)) w.1) in
    let n = no_heat g c o0 f1 in
    let b : (apply_physics g c).state.energy_balance
        ≡ to_int16 (pos 0 -ℤ negsuc (65535 - (p * 3 / 2 + p * 4 + pos_part (passive c)))) =
      (ap to_int16 (ap₂ ◌-ℤ◌ n e)) in
    (
      rw e (omega (arith, h, w.1)),
      rw b (
          negative_cooling (65535 - (p * 3 / 2 + p * 4 + pos_part (passive c)))
            (ground (arith, k, w.1))),
    )
