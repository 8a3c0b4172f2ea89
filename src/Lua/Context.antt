-- ===== src/Lua/Context.antt =====
-- src/lua/context.rs: what `decide(ctx)` gets to see. A key that is not set is `none`.
-- `W` is `f64`, `S` is `f32`.
use Prim.Native.String.{String}
use argus_manager.Prelude.{
  ℕ, Bool, true, false, Option, none, some, ltb, if◌then◌else◌, ◌<◌, ◌≡◌, ◌⊎◌, arith, refl,
}
use argus_manager.Float.{Float, nat}
use argus_manager.Contract.{Phase, EngineState, EngineStatus}
use argus_manager.Policy.State.{Pressure6D, SignalState, TriggerState}

pub record EngineTable (W S : Type 0) : Type 0 where
  pub seen : Bool
  pub kv_cache_bytes : Option ℕ
  pub kv_cache_budget_bytes : Option ℕ
  pub kv_cache_tokens : Option ℕ
  pub tbt_ms : Option S
  pub phase : Option String
  pub state : Option String
  pub kv_fill : Option W

pub record SignalTable (W : Type 0) : Type 0 where
  pub mem_available : ℕ
  pub mem_total : ℕ
  pub cpu_pct : W
  pub gpu_pct : W
  pub temp_c : W
  pub throttling : Bool

pub record Ctx (W S : Type 0) : Type 0 where
  pub pressure : Pressure6D S
  pub trigger : TriggerState
  pub engine : EngineTable W S
  pub signal : SignalTable W

phase_name : Phase → String
phase_name Phase.idle = "idle"
phase_name Phase.prefill = "prefill"
phase_name Phase.decode = "decode"

state_name : EngineState → String
state_name EngineState.idle = "idle"
state_name EngineState.running = "running"
state_name EngineState.suspended = "suspended"

module _ {W S : Type 0} ⦃f : Float W⦄ where
  unfoldable pub engine_table : Option (EngineStatus S) → EngineTable W S
  unfolding phase_name state_name
  engine_table (some st) = record {
    seen = true;
    kv_cache_bytes = some (st.kv_cache_bytes);
    kv_cache_budget_bytes = some (st.kv_cache_budget_bytes);
    kv_cache_tokens = some (st.kv_cache_tokens);
    tbt_ms = some (st.tbt_ms);
    phase = some (phase_name st.phase);
    state = some (state_name st.state);
    kv_fill =
        if ltb 0 st.kv_cache_budget_bytes
        then some (f.div (f.of_nat st.kv_cache_bytes) (f.of_nat st.kv_cache_budget_bytes))
        else none;
  }
  engine_table none = record {
    seen = false;
    kv_cache_bytes = none;
    kv_cache_budget_bytes = none;
    kv_cache_tokens = none;
    tbt_ms = none;
    phase = none;
    state = none;
    kv_fill = none;
  }

  unfoldable pub build_ctx :
      Pressure6D S → TriggerState → SignalState W → Option (EngineStatus S) → Ctx W S
  build_ctx pressure trigger signals engine = record {
    pressure = pressure;
    trigger = trigger;
    engine = engine_table engine;
    signal = record {
      mem_available = signals.mem_available;
      mem_total = signals.mem_total;
      cpu_pct = signals.cpu_pct;
      gpu_pct = signals.gpu_pct;
      temp_c = f.div (f.of_int signals.temp_mc) (nat 1000);
      throttling = signals.throttling;
    };
  }

  -- `seen` with a heartbeat, and `kv_fill` with a heartbeat whose budget is not 0.
  abbrev pub EngineTableOf : Option (EngineStatus S) → EngineTable W S → Type 0
  EngineTableOf none t = (t.seen ≡ false) × (t.kv_fill ≡ none)
  EngineTableOf (some st) t =
      (t.seen ≡ true)
      × (((st.kv_cache_budget_bytes ≡ 0) × (t.kv_fill ≡ none))
          ⊎ ((0 < st.kv_cache_budget_bytes)
              × (t.kv_fill
                  ≡ some (f.div (f.of_nat st.kv_cache_bytes) (f.of_nat st.kv_cache_budget_bytes)))))

-- The table says `seen` exactly when a heartbeat has come, and it offers `kv_fill` exactly when
-- one has come whose budget is not 0: a script that divides by the budget behind `kv_fill` never
-- divides by 0.
engine_table_kv_fill :
    {S : Type 0} (W : Type 0) ⦃f : Float W⦄ (engine : Option (EngineStatus S))
    → EngineTableOf engine (engine_table {W = W} engine)
unfolding engine_table
engine_table_kv_fill W none = (refl, refl)
engine_table_kv_fill W (some st) = (refl, ground arith)
