-- ===== src/Sim/Config/Get.antt =====
-- `get_sim_cfg`: the current or default configuration, or the limits, as two blocks.
use embed_template.Prelude.{
  ℕ, ◌+◌, ◌/◌, ◌-◌, ◌%◌, ◌^◌, Bool, not, if◌then◌else◌, ◌&&◌, ◌||◌, List, [], ◌∷◌, ◌==◌,
}
use embed_template.Prelude.Int.{ℤ, pos, negsuc, ltb_ℤ, leb_ℤ, div_ℤ, pos_part, neg_part}
use embed_template.Sim.{Sim, has, Stream}
use embed_template.Sim.Config.{
  temp_target_default, temp_critical_default, temp_cooldown_default, temp_hysteresis_default,
  ramp_time_default, sensor_latency_default, chip_thermal_mass, board_conductance,
  heater_unit_power,
}

-- The low and the high byte of a `uint16_t`.
abbrev lo : ℕ → ℕ
lo v = v % 2 ^ 8

abbrev hi : ℕ → ℕ
hi v = v / 2 ^ 8 % 2 ^ 8

-- An integer stored to a `uint16_t`.
abbrev pub to_uint16 : ℤ → ℕ
to_uint16 a = (pos_part a + (2 ^ 16 - neg_part a % 2 ^ 16)) % 2 ^ 16

abbrev phy_block : ℕ → ℕ → ℕ → ℕ → Stream
phy_block ramp mass cond power =
    0xFF ∷ lo ramp ∷ lo mass ∷ hi mass ∷ lo cond ∷ hi cond ∷ lo power ∷ hi power ∷ []

abbrev ctrl_block : ℕ → ℕ → ℕ → ℕ → ℕ → ℕ → Stream
ctrl_block latency target critical cooldown hysteresis ambient =
    0x7E
    ∷ lo latency
    ∷ lo target
    ∷ lo critical
    ∷ lo cooldown
    ∷ lo hysteresis
    ∷ lo ambient
    ∷ hi ambient
    ∷ []

-- `(cold || (!inuse && !(mask & bit))) ? dflt : v`
abbrev pick {ℓ} : {A : Type ℓ} → Bool → Bool → Bool → A → A → A
pick cold inuse marked dflt v = if cold || (not inuse && not marked) then dflt else v

-- The block list that is written, and the number of bytes.
unfoldable pub get_sim_cfg_set : Bool → Sim → List Stream × ℤ
get_sim_cfg_set cold s =
    let phy = s.ctx.phy in
    let ctrl = s.cfg.ctrl in
    let m = s.ctx.mask in
    let n = s.cfg.mask in
    let used = has m 0 in
    let inuse = has n 0 in
    (
      phy_block (pick cold used (has m 1) ramp_time_default phy.ramp_time_s)
            (pick cold used (has m 2) chip_thermal_mass phy.thermal_mass)
            (pick cold used (has m 3) board_conductance phy.board_conduct)
            (pick cold used (has m 4) heater_unit_power phy.heater_power)
          ∷ ctrl_block (pick cold inuse (has m 9) sensor_latency_default phy.sensor_latency_ms)
              (pick cold inuse (has n 10) temp_target_default ctrl.temp_target)
              (pick cold inuse (has n 11) temp_critical_default ctrl.temp_critical)
              (pick cold inuse (has n 12) temp_cooldown_default ctrl.temp_cooldown)
              (pick cold inuse (has n 13) temp_hysteresis_default ctrl.temp_hysteresis)
              (to_uint16 (pick cold inuse (has m 14) (pos 25) (div_ℤ phy.ambient_temp_mc 1000)))
          ∷ [],
      pos 16,
    )

unfoldable pub get_sim_cfg_ranges : Bool → List Stream × ℤ
get_sim_cfg_ranges max = (
  phy_block (if max then 20 else 2) (if max then 1000 else 200) (if max then 15000 else 5000)
        (if max then 8000 else 1000)
      ∷ ctrl_block (if max then 50 else 5) (if max then 150 else 50) (if max then 250 else 160)
          (if max then 100 else 30) (if max then 10 else 2)
          (to_uint16 (if max then pos 40 else negsuc 9))
      ∷ [],
  pos 16,
)

-- What is written is the first component; the rest of a longer buffer is left as it was, and
-- nothing is written when the result is -1. `what`: 0 current, 1 default, 2 least, 3 greatest.
-- The C code compares `what < 2` on signed integers: a negative `what` converts to true.
unfoldable pub get_sim_cfg : ℤ → Bool → ℤ → Sim → List Stream × ℤ
get_sim_cfg len is_null what s =
    if ltb_ℤ len (pos 2) || is_null
    then ([], negsuc 0)
    else if ltb_ℤ what (pos 2)
    then get_sim_cfg_set (not (leb_ℤ what (pos 0) && leb_ℤ (pos 0) what)) s
    else if ltb_ℤ what (pos 4)
    then get_sim_cfg_ranges (not (pos_part what % 2 == 0))
    else ([], negsuc 0)
