-- ===== src/Sim/Config/Set.antt =====
-- `set_sim_cfg`: a command's one or two blocks of configuration.
pub mod Range
pub mod RoundTrip
pub mod Start
use embed_template.Prelude.{
  ℕ, ◌+◌, ◌*◌, ◌/◌, ◌-◌, ◌%◌, ◌^◌, Bool, true, false, not, ltb, if◌then◌else◌, ◌==◌, ◌&&◌, ◌||◌,
  List, [], ◌∷◌, Option, none, some, bit_and, bit_or, get_or,
}
use embed_template.Prelude.Bits.{bit_not}
use embed_template.Prelude.Int.{ℤ, pos, negsuc, ltb_ℤ, leb_ℤ}
use embed_template.Sim.{
  PhyState, SimCtx, TempCtrlCfg, TempRegCfg, Sim, has, with_bit, Stream, u8_at, u16_at,
}
use embed_template.Sim.Config.{
  ramp_ok, mass_ok, cond_ok, power_ok, latency_ok, target_ok, critical_ok, cooldown_ok,
  hysteresis_ok,
}
use embed_template.Sim.Config.Init.{mass_for, cond_for, recalculate_thermal_matrix}

-- The statics with the locals `oor_mask` and `hdr`.
pub record Parse : Type 0 where
  pub sim : Sim
  pub oor_mask : ℕ
  pub hdr : ℕ

-- One field: absent, stored and marked, or out of range. In the first block a value out of range
-- also takes its bit out of `hdr`.
abbrev pub stored_phy : PhyState → ℕ → Parse → Parse
stored_phy phy k p = record {
  sim = record {
    ctx = record (p.sim.ctx) { phy = phy; mask = with_bit p.sim.ctx.mask k };
    cfg = p.sim.cfg;
  };
  oor_mask = p.oor_mask;
  hdr = p.hdr;
}

abbrev pub stored_ctrl : TempCtrlCfg → ℕ → Parse → Parse
stored_ctrl ctrl k p = record {
  sim = record { ctx = p.sim.ctx; cfg = record { ctrl = ctrl; mask = with_bit p.sim.cfg.mask k } };
  oor_mask = p.oor_mask;
  hdr = p.hdr;
}

abbrev pub refused_first : ℕ → Parse → Parse
refused_first k p = record p {
  oor_mask = with_bit p.oor_mask k;
  hdr = bit_and p.hdr (bit_not 32 (2 ^ k));
}

abbrev pub refused_next : ℕ → Parse → Parse
refused_next k p = record p { oor_mask = with_bit p.oor_mask k }

abbrev pub take_field : ℕ → Bool → Parse → Parse → Parse → Parse
take_field k ok stored refused p = if has p.hdr k then (if ok then stored else refused) else p

take_ramp : Stream → Parse → Parse
take_ramp s p =
    let v = u8_at s 1 in
    take_field 1 (ramp_ok v) (stored_phy (record (p.sim.ctx.phy) { ramp_time_s = v }) 1 p)
      (refused_first 1 p) p

take_mass : Stream → Parse → Parse
take_mass s p =
    let v = u16_at s 1 in
    take_field 2 (mass_ok v) (stored_phy (record (p.sim.ctx.phy) { thermal_mass = v }) 2 p)
      (refused_first 2 p) p

take_cond : Stream → Parse → Parse
take_cond s p =
    let v = u16_at s 2 in
    take_field 3 (cond_ok v) (stored_phy (record (p.sim.ctx.phy) { board_conduct = v }) 3 p)
      (refused_first 3 p) p

take_power : Stream → Parse → Parse
take_power s p =
    let v = u16_at s 3 in
    take_field 4 (power_ok v) (stored_phy (record (p.sim.ctx.phy) { heater_power = v }) 4 p)
      (refused_first 4 p) p

abbrev pub with_phy : PhyState → Parse → Parse
with_phy phy p = record p {
  sim = record { ctx = record (p.sim.ctx) { phy = phy }; cfg = p.sim.cfg };
}

-- A new ramp time or heater power refreshes the mass and the conductance that it does not carry.
derive_mass : Parse → Parse
derive_mass p =
    if not (has p.hdr 2) && (has p.hdr 1 || has p.hdr 4)
    then with_phy
        (record (p.sim.ctx.phy) {
          thermal_mass = mass_for p.sim.ctx.phy.heater_power p.sim.ctx.phy.ramp_time_s;
        })
        p
    else p

derive_cond : Parse → Parse
derive_cond p =
    if not (has p.hdr 3) && (has p.hdr 1 || has p.hdr 4)
    then with_phy (record (p.sim.ctx.phy) { board_conduct = cond_for p.sim.ctx.phy.thermal_mass }) p
    else p

first_block : Stream → Parse → Parse
first_block s p =
    derive_cond (derive_mass (take_power s (take_cond s (take_mass s (take_ramp s p)))))

take_latency : Stream → Parse → Parse
take_latency s p =
    let v = u8_at s 1 in
    take_field 1 (latency_ok v) (stored_phy (record (p.sim.ctx.phy) { sensor_latency_ms = v }) 9 p)
      (refused_next 9 p) p

take_target : Stream → Parse → Parse
take_target s p =
    let v = u8_at s 2 in
    take_field 2 (target_ok v) (stored_ctrl (record (p.sim.cfg.ctrl) { temp_target = v }) 10 p)
      (refused_next 10 p) p

take_critical : Stream → Parse → Parse
take_critical s p =
    let v = u8_at s 3 in
    take_field 3 (critical_ok v) (stored_ctrl (record (p.sim.cfg.ctrl) { temp_critical = v }) 11 p)
      (refused_next 11 p) p

take_cooldown : Stream → Parse → Parse
take_cooldown s p =
    let v = u8_at s 4 in
    take_field 4 (cooldown_ok v) (stored_ctrl (record (p.sim.cfg.ctrl) { temp_cooldown = v }) 12 p)
      (refused_next 12 p) p

take_hysteresis : Stream → Parse → Parse
take_hysteresis s p =
    let v = u8_at s 5 in
    take_field 5 (hysteresis_ok v)
      (stored_ctrl (record (p.sim.cfg.ctrl) { temp_hysteresis = v }) 13 p) (refused_next 13 p) p

-- `(int32_t)((int16_t)w) * 1000`
abbrev pub degrees : ℕ → ℤ
degrees w = if ltb w (2 ^ 15) then pos (w * 1000) else negsuc ((2 ^ 16 - w) * 1000 - 1)

abbrev pub ambient_ok : ℤ → Bool
ambient_ok v = leb_ℤ (negsuc 9999) v && leb_ℤ v (pos 40000)

take_ambient : Stream → Parse → Parse
take_ambient s p =
    let v = degrees (u16_at s 3) in
    take_field 6 (ambient_ok v) (stored_phy (record (p.sim.ctx.phy) { ambient_temp_mc = v }) 14 p)
      (refused_next 14 p) p

-- A running simulation with a short ramp needs a fast sensor, and new derived values.
settle_running : Parse → Parse
unfolding recalculate_thermal_matrix
settle_running p =
    let phy = p.sim.ctx.phy in
    let fast =
      (if has p.sim.ctx.mask 0 && (ltb phy.ramp_time_s 4 && ltb 10 phy.sensor_latency_ms)
        then with_phy (record phy { sensor_latency_ms = 10 }) p
        else p) in
    if has fast.sim.ctx.mask 0
    then record fast {
      sim = record { ctx = recalculate_thermal_matrix fast.sim.ctx; cfg = fast.sim.cfg };
    }
    else fast

next_block : Stream → Parse → Parse
next_block s p = settle_running (
    take_ambient s
      (take_hysteresis s (take_cooldown s (take_critical s (take_target s (take_latency s p))))))

abbrev pub block : List Stream → ℕ → Stream
block cfg i = get_or cfg i []

finish : Parse → ℤ × Sim
finish p = (pos p.oor_mask, p.sim)

-- `goto next_pkt` skips the first block when it only says that a second one follows.
pub set_sim_cfg : ℤ → Option (List Stream) → Sim → ℤ × Sim
unfolding finish
set_sim_cfg len none sim = (negsuc 0, sim)
set_sim_cfg len (some cfg) sim =
    let hdr = u8_at (block cfg 0) 0 in
    let start : Parse = record { sim = sim; oor_mask = 0; hdr = hdr } in
    let first = first_block (block cfg 0) start in
    let second =
      λ (p : Parse). next_block (block cfg 1) (record p { hdr = u8_at (block cfg 1) 0 }) in
    if ltb_ℤ len (pos 1)
    then (negsuc 0, sim)
    else if (hdr == 1) && (leb_ℤ len (pos 2) && leb_ℤ (pos 2) len)
    then finish (second start)
    else if leb_ℤ len (pos 1)
    then finish first
    else finish (second first)
