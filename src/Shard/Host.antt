-- ===== src/Shard/Host.antt =====
-- What src/opoi/shard_engine.rs relies on around it: the daemon, the sources of models, the downloads,
-- the lines to the hosts of experts, digests and tokenizers; and what other handlers do meanwhile.
use cs_stratum_bridge.Base.{ℕ, Text, Map, Option, List, ◌∷◌, []}
use cs_stratum_bridge.Wire.{OpoiExpertResult}
use cs_stratum_bridge.Daemon.{CsdRpcClient}
use cs_stratum_bridge.Receipts.Sampling.{Rate}
use cs_stratum_bridge.Experts.{ExpertDispatcher}
use cs_stratum_bridge.Experts.Combine.{Tried}
use cs_stratum_bridge.Experts.Dispatch.{Host}
use cs_stratum_bridge.Speculative.Pipeline.{ModelSource, SpeculativeEngine}
use cs_stratum_bridge.Speculative.Results.{Reply}
use cs_stratum_bridge.Shard.{ShardEngine}
use cs_stratum_bridge.Shard.Dispatch.{receive_prompt, on_disconnect, retry_stalled_pipelines}

-- What the engine does while a handler waits for the experts. A result of a miner that is handled then,
-- which the code takes if it matches the busy marker, is not modelled.
pub data ShardEvent : Type 0 where
  ticks : ShardEvent
  disconnects : Text → ShardEvent
  caches_prompt : Text → Text → ShardEvent

-- A dispatch of one expert, which `join_all` runs with others.
abbrev pub ExpertTask : Type 0 → Type 0
ExpertTask W = ExpertDispatcher → W → Tried (ℕ × OpoiExpertResult) × ExpertDispatcher × W

pub record ShardHost (W : Type 0) : Type 0 where
  pub csd : CsdRpcClient W
  pub resolve : Text → W → Option ModelSource × W
  pub fetch_and_parse : Text → ℕ → W → Option (Map ℕ ℕ) × W
  pub experts : Host W
  pub join_all :
      List (ExpertTask W)
      → ExpertDispatcher
      → W
      → List (Tried (ℕ × OpoiExpertResult)) × ExpertDispatcher × W
  pub meanwhile : Text → W → List ShardEvent × W
  pub count_prompt_tokens : Text → Text → Text → Option ℕ
  pub hmac_sha256 : List ℕ → List ℕ → List ℕ
  pub rate : Rate

-- With the registry and the database as they are.
abbrev pub speculative_of : ShardEngine → SpeculativeEngine → SpeculativeEngine
speculative_of e spec = record spec { registry = e.registry; db = e.db }

abbrev pub Answer : Type 0 → Type 0
Answer W = Reply × ShardEngine × W

module _ {W : Type 0} (resolve : Text → W → Option ModelSource × W) where
  abbrev pub handle_event : ShardEvent → ShardEngine → W → ShardEngine × W
  handle_event ticks e w = retry_stalled_pipelines resolve e w
  handle_event (disconnects wallet) e w = (on_disconnect wallet e, w)
  handle_event (caches_prompt request prompt_hex) e w = (receive_prompt request prompt_hex e, w)

  abbrev pub handle_events : List ShardEvent → ShardEngine → W → ShardEngine × W
  handle_events [] e w = (e, w)
  handle_events (x ∷ xs) e w = let (e', w') = handle_event x e w in handle_events xs e' w'
