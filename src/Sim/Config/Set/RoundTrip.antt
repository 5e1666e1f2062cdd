-- ===== src/Sim/Config/Set/RoundTrip.antt =====
-- What `get_sim_cfg` reports, `set_sim_cfg` accepts.
use embed_template.Prelude.{ℕ, zero, suc, ap, ◌≡◌, ◌≤◌, ◌<◌, false, arith, some}
use embed_template.Prelude.Int.{pos}
use embed_template.Sim.{Sim, has}
use embed_template.Sim.Config.Get.{get_sim_cfg, get_sim_cfg_set, get_sim_cfg_ranges}
use embed_template.Sim.Config.Set.{
  Parse, take_ramp, take_mass, take_cond, take_power, derive_mass, derive_cond, first_block,
  take_latency, take_target, take_critical, take_cooldown, take_hysteresis, take_ambient,
  settle_running, next_block, set_sim_cfg,
}

settle_running-oor_mask : (p : Parse) → (settle_running p).oor_mask ≡ p.oor_mask
unfolding settle_running
settle_running-oor_mask p = ground arith

-- The least and the greatest values that `get_sim_cfg` reports are accepted by `set_sim_cfg`,
-- all ten of them, in every state.
pub ranges_accepted :
    (what : ℕ) (s t : Sim)
    → 2 ≤ what
    → what < 4
    → (set_sim_cfg (pos 2) (some (get_sim_cfg (pos 2) false (pos what) s).0) t).0 ≡ pos 0
unfolding set_sim_cfg get_sim_cfg get_sim_cfg_ranges first_block next_block take_ramp take_mass
    take_cond take_power derive_mass derive_cond take_latency take_target take_critical
    take_cooldown take_hysteresis take_ambient has
ranges_accepted zero s t h k = absurd (omega arith)
ranges_accepted (suc zero) s t h k = absurd (omega arith)
ranges_accepted (suc (suc zero)) s t h k = ap pos (settle_running-oor_mask _)
ranges_accepted (suc (suc (suc zero))) s t h k = ap pos (settle_running-oor_mask _)
ranges_accepted (suc (suc (suc (suc n)))) s t h k = absurd (omega arith)

-- The default configuration is accepted, in every state.
pub default_accepted :
    (s t : Sim) → (set_sim_cfg (pos 2) (some (get_sim_cfg (pos 2) false (pos 1) s).0) t).0 ≡ pos 0
unfolding set_sim_cfg get_sim_cfg get_sim_cfg_set first_block next_block take_ramp take_mass
    take_cond take_power derive_mass derive_cond take_latency take_target take_critical
    take_cooldown take_hysteresis take_ambient has
default_accepted s t = ap pos (settle_running-oor_mask _)
