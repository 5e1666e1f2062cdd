-- ===== src/Sim/Config/Set/Range.antt =====
-- What the configuration commands may store: a field marked as configured is in its range.
use embed_template.Prelude.{◌≡◌, true, arith, List, Option, none, some, if_intro}
use embed_template.Prelude.Int.{ℤ, pos, ltb_ℤ, leb_ℤ}
use embed_template.Sim.{Sim, has, has-with_bit, Stream, u8_at}
use embed_template.Sim.Config.{
  ramp_ok, mass_ok, cond_ok, power_ok, latency_ok, target_ok, critical_ok, cooldown_ok,
  hysteresis_ok,
}
use embed_template.Sim.Config.Init.{recalculate_thermal_matrix}
use embed_template.Sim.Config.Set.{
  Parse, ambient_ok, take_ramp, take_mass, take_cond, take_power, derive_mass, derive_cond,
  first_block, take_latency, take_target, take_critical, take_cooldown, take_hysteresis,
  take_ambient, settle_running, next_block, set_sim_cfg, block,
}

-- Every field that is marked as configured holds a value that its range allows. (The command
-- marks a configured cooldown by bit 12 and a configured hysteresis by bit 13.)
pub record IsConfigured (s : Sim) : Type 0 where
  pub ramp : has s.ctx.mask 1 ≡ true → ramp_ok s.ctx.phy.ramp_time_s ≡ true
  pub mass : has s.ctx.mask 2 ≡ true → mass_ok s.ctx.phy.thermal_mass ≡ true
  pub cond : has s.ctx.mask 3 ≡ true → cond_ok s.ctx.phy.board_conduct ≡ true
  pub power : has s.ctx.mask 4 ≡ true → power_ok s.ctx.phy.heater_power ≡ true
  pub latency : has s.ctx.mask 9 ≡ true → latency_ok s.ctx.phy.sensor_latency_ms ≡ true
  pub ambient : has s.ctx.mask 14 ≡ true → ambient_ok s.ctx.phy.ambient_temp_mc ≡ true
  pub target : has s.cfg.mask 10 ≡ true → target_ok s.cfg.ctrl.temp_target ≡ true
  pub critical : has s.cfg.mask 11 ≡ true → critical_ok s.cfg.ctrl.temp_critical ≡ true
  pub cooldown : has s.cfg.mask 12 ≡ true → cooldown_ok s.cfg.ctrl.temp_cooldown ≡ true
  pub hysteresis : has s.cfg.mask 13 ≡ true → hysteresis_ok s.cfg.ctrl.temp_hysteresis ≡ true

take_ramp-IsConfigured :
    (s : Stream) (p : Parse) → IsConfigured p.sim → IsConfigured (take_ramp s p).sim
unfolding take_ramp
take_ramp-IsConfigured s p v = grind (arith, has-with_bit)

take_mass-IsConfigured :
    (s : Stream) (p : Parse) → IsConfigured p.sim → IsConfigured (take_mass s p).sim
unfolding take_mass
take_mass-IsConfigured s p v = grind (arith, has-with_bit)

take_cond-IsConfigured :
    (s : Stream) (p : Parse) → IsConfigured p.sim → IsConfigured (take_cond s p).sim
unfolding take_cond
take_cond-IsConfigured s p v = grind (arith, has-with_bit)

take_power-IsConfigured :
    (s : Stream) (p : Parse) → IsConfigured p.sim → IsConfigured (take_power s p).sim
unfolding take_power
take_power-IsConfigured s p v = grind (arith, has-with_bit)

take_latency-IsConfigured :
    (s : Stream) (p : Parse) → IsConfigured p.sim → IsConfigured (take_latency s p).sim
unfolding take_latency
take_latency-IsConfigured s p v = grind (arith, has-with_bit)

take_target-IsConfigured :
    (s : Stream) (p : Parse) → IsConfigured p.sim → IsConfigured (take_target s p).sim
unfolding take_target
take_target-IsConfigured s p v = grind (arith, has-with_bit)

take_critical-IsConfigured :
    (s : Stream) (p : Parse) → IsConfigured p.sim → IsConfigured (take_critical s p).sim
unfolding take_critical
take_critical-IsConfigured s p v = grind (arith, has-with_bit)

take_cooldown-IsConfigured :
    (s : Stream) (p : Parse) → IsConfigured p.sim → IsConfigured (take_cooldown s p).sim
unfolding take_cooldown
take_cooldown-IsConfigured s p v = grind (arith, has-with_bit)

take_hysteresis-IsConfigured :
    (s : Stream) (p : Parse) → IsConfigured p.sim → IsConfigured (take_hysteresis s p).sim
unfolding take_hysteresis
take_hysteresis-IsConfigured s p v = grind (arith, has-with_bit)

take_ambient-IsConfigured :
    (s : Stream) (p : Parse) → IsConfigured p.sim → IsConfigured (take_ambient s p).sim
unfolding take_ambient
take_ambient-IsConfigured s p v = grind (arith, has-with_bit)

derive_mass-IsConfigured : (p : Parse) → IsConfigured p.sim → IsConfigured (derive_mass p).sim
unfolding derive_mass
derive_mass-IsConfigured p v = ground arith

derive_cond-IsConfigured : (p : Parse) → IsConfigured p.sim → IsConfigured (derive_cond p).sim
unfolding derive_cond
derive_cond-IsConfigured p v = ground arith

first_block-IsConfigured :
    (s : Stream) (p : Parse) → IsConfigured p.sim → IsConfigured (first_block s p).sim
unfolding first_block
first_block-IsConfigured s p v = derive_cond-IsConfigured _ (
    derive_mass-IsConfigured _ (
      take_power-IsConfigured s _
        (take_cond-IsConfigured s _ (take_mass-IsConfigured s _ (take_ramp-IsConfigured s p v)))))

recalculate-IsConfigured :
    (s : Sim) → IsConfigured s → IsConfigured (record s { ctx = recalculate_thermal_matrix s.ctx })
unfolding recalculate_thermal_matrix
recalculate-IsConfigured s v = ground arith

settle_running-IsConfigured : (p : Parse) → IsConfigured p.sim → IsConfigured (settle_running p).sim
unfolding settle_running
settle_running-IsConfigured p v = ground arith

next_block-IsConfigured :
    (s : Stream) (p : Parse) → IsConfigured p.sim → IsConfigured (next_block s p).sim
unfolding next_block
next_block-IsConfigured s p v = settle_running-IsConfigured _ (
    take_ambient-IsConfigured s _ (
      take_hysteresis-IsConfigured s _ (
        take_cooldown-IsConfigured s _ (
          take_critical-IsConfigured s _
            (take_target-IsConfigured s _ (take_latency-IsConfigured s p v))))))

-- Whatever the length and the blocks of a command, `set_sim_cfg` leaves every field that is
-- marked as configured within its range, if that held before.
pub set_sim_cfg-IsConfigured :
    (len : ℤ) (cfg : Option (List Stream)) (s : Sim)
    → IsConfigured s
    → IsConfigured (set_sim_cfg len cfg s).1
unfolding set_sim_cfg
set_sim_cfg-IsConfigured len none s v = v
set_sim_cfg-IsConfigured len (some cfg) s v =
    let hdr = u8_at (block cfg 0) 0 in
    let start : Parse = record { sim = s; oor_mask = 0; hdr = hdr } in
    let one = first_block-IsConfigured (block cfg 0) start v in
    if_intro (ltb_ℤ len (pos 1)) (λ (r : ℤ × Sim). IsConfigured r.1) v
      (if_intro _ (λ (r : ℤ × Sim). IsConfigured r.1) (next_block-IsConfigured (block cfg 1) _ v)
        (if_intro (leb_ℤ len (pos 1)) (λ (r : ℤ × Sim). IsConfigured r.1) one
          (next_block-IsConfigured (block cfg 1) _ one)))
