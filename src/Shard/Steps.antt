-- ===== src/Shard/Steps.antt =====
-- Runs of src/opoi/shard_engine.rs: results, ticks of the poll, prompts and disconnects, one after
-- another.
use cs_stratum_bridge.Base.{◌<◌, ◌^◌, Text, text_key, All, List, [], ◌∷◌}
use cs_stratum_bridge.AppError.{Result, ok, err}
use cs_stratum_bridge.Wire.{OpoiShardResult}
use cs_stratum_bridge.Rpc.{OpoiRequest}
use cs_stratum_bridge.StakePool.{StakePool}
use cs_stratum_bridge.Shard.{ShardEngine}
use cs_stratum_bridge.Shard.Host.{ShardEvent, ShardHost, handle_event}
use cs_stratum_bridge.Shard.Results.{handle_shard_result}
use cs_stratum_bridge.Shard.Poll.{poll_and_start_tick}
use cs_stratum_bridge.Shard.Running.{Running}

pub data ShardStep : Type 0 where
  takes_result : Text → OpoiShardResult → ShardStep
  polls : ShardStep
  handles : ShardEvent → ShardStep

abbrev pub Bounded : Result (List OpoiRequest) → Type 0
Bounded (err _) = Unit
Bounded (ok reqs) = All (λ r. r.max_tokens < 2 ^ 32) reqs

module _ {W : Type 0} (host : ShardHost W) where
  abbrev pub step : ShardStep → ShardEngine → W → ShardEngine × W
  step (takes_result wallet result) e w =
      let (reply, e', w') = handle_shard_result host wallet result e w in (e', w')
  step polls e w = let (r, e', w') = poll_and_start_tick host e w in (e', w')
  step (handles x) e w = handle_event host.resolve x e w

  abbrev pub run_steps : List ShardStep → ShardEngine → W → ShardEngine × W
  run_steps [] e w = (e, w)
  run_steps (x ∷ xs) e w = let (e', w') = step x e w in run_steps xs e' w'
