-- ===== src/Daemon.antt =====
-- What the bridge asks of the daemon `csd`, through src/rpc/csd_client.rs: an interface. The daemon
-- keeps a state `W` of its own, the chain, on which nothing here relies.
use cs_stratum_bridge.Base.{ℕ, Text, Map, Option, List}
use cs_stratum_bridge.AppError.{Result}
use cs_stratum_bridge.Rpc.{
  OpoiStake, StakeOpoiResult, OpoiRequest, CommitResult, ModelManifest, ModelGraph, ClaimResult,
  ShardResultTxRes,
}

pub record CsdRpcClient (W : Type 0) : Type 0 where
  pub get_chain_height : W → Result ℕ × W
  pub get_opoi_stake : Text → W → Result (Option OpoiStake) × W
  pub stake_opoi : Text → Text → ℕ → Text → Text → W → Result StakeOpoiResult × W
  pub renew_opoi_stake : Text → W → Result Text × W
  pub get_request : Text → W → Result OpoiRequest × W
  pub list_pending_requests : W → Result (List OpoiRequest) × W
  pub get_model_manifest : Text → W → Result ModelManifest × W
  pub get_model_graph : Text → W → Result ModelGraph × W
  pub claim_coordinator : Text → Text → W → Result ClaimResult × W
  pub submit_shard_result : Text → ℕ → Text → Text → ℕ → W → Result ShardResultTxRes × W
  pub submit_response_commit : Text → Text → Text → ℕ → W → Result CommitResult × W
  pub submit_response_reveal : Text → Text → Text → ℕ → Text → W → Result Text × W
  pub submit_content : Text → Text → Text → W → Result (Unit {0}) × W
  pub send_many : Text → Map Text ℕ → W → Result Text × W
