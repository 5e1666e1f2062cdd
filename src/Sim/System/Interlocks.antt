-- ===== src/Sim/System/Interlocks.antt =====
-- The interlocks in every reachable state.
use embed_template.Prelude.{arith}
use embed_template.Gpio.{gpio_wdt_kick}
use embed_template.Sim.Regulation.{Plant, with_gpio, run_temperature_regulation}
use embed_template.Sim.Regulation.Safety.{IsSafe, run_temperature_regulation-IsRegulated}
use embed_template.Sim.Hardware.{Board}
use embed_template.Sim.Hardware.Physics.{tick-IsSafe}
use embed_template.Sim.System.{control_pass, Step, hardware, control, Reach, here, then_step}

kick-IsSafe : (p : Plant) → IsSafe p → IsSafe (with_gpio (gpio_wdt_kick p.gpio) p)
unfolding gpio_wdt_kick
kick-IsSafe p v = record {
  critical_off = λ c. ground (arith, v.critical_off c);
  cooldown_off = λ c. ground (arith, v.cooldown_off c);
  exclusive = ground (arith, v.exclusive);
}

pub Step-IsSafe : {b c : Board} → Step b c → IsSafe b.plant → IsSafe c.plant
unfolding control_pass
Step-IsSafe (hardware b) v = (tick-IsSafe b v).0
Step-IsSafe (control b n) v =
    kick-IsSafe (run_temperature_regulation b.plant)
      (run_temperature_regulation-IsRegulated b.plant v).safe

-- In every state that any interleaving of the hardware and the control task reaches from a safe
-- state, the heater is off in emergency cooling and in the cooldown after an alarm, and the
-- heater and the first fan are not on together.
pub Reach-IsSafe : {a b : Board} → IsSafe a.plant → Reach a b → IsSafe b.plant
Reach-IsSafe v (here a) = v
Reach-IsSafe v (then_step r s) = Step-IsSafe s (Reach-IsSafe v r)
