-- ===== src/Shard/Finish.antt =====
-- The end of a pipeline in src/opoi/shard_engine.rs: `finalize_pipeline` and `record_b3lite_receipt`.
use cs_stratum_bridge.Base.{
  ℕ, ◌%◌, ◌^◌, Text, text_key, lookup, remove, Option, none, some, [], ◌∷◌, ◌++◌, length,
}
use cs_stratum_bridge.AppError.{Result, ok, err}
use cs_stratum_bridge.Bytes.{encode_tokens}
use cs_stratum_bridge.Contributions.{select_winning_wallet}
use cs_stratum_bridge.Receipts.{ReceiptFields, sign_receipt}
use cs_stratum_bridge.Receipts.Sampling.{B3LiteConfig, should_sample}
use cs_stratum_bridge.Db.{Db}
use cs_stratum_bridge.Db.Submissions.{create_submission}
use cs_stratum_bridge.Db.Audits.{create_b3lite_receipt}
use cs_stratum_bridge.Shard.{PipelineState, ShardEngine, build_response}
use cs_stratum_bridge.Shard.Host.{ShardHost}

-- The row of the answer has been written, or the answer is lost.
abbrev pub spawn_commit : Text → Text → ℕ → Result ℕ × Db → ShardEngine → ShardEngine
spawn_commit request response_hash token_count (err _, db) e = record e { db = db }
spawn_commit request response_hash token_count (ok id, db) e = record e {
  db = db;
  spawned =
      e.spawned
      ++ record {
        submission_id = id;
        request_id = request;
        response_hash = response_hash;
        token_count = token_count;
      }
        ∷ [];
}

abbrev pub receipt_fields : Text → Text → PipelineState → Text → ReceiptFields
receipt_fields request miner_wallet p response_hash = record {
  request_id = request;
  miner_wallet = miner_wallet;
  model_id = p.manifest.model_id;
  gguf_sha256 = p.manifest.backbone_pom_root;
  response_hash = response_hash;
  generated_token_ids = p.generated_token_ids;
}

module _ {W : Type 0} (host : ShardHost W) where
  abbrev pub store_receipt : Text → Text → PipelineState → Text → Text → B3LiteConfig → Db → Db
  store_receipt request miner_wallet p response_hash signature cfg db =
      (create_b3lite_receipt request miner_wallet p.manifest.model_id p.manifest.backbone_pom_root
        (some p.prompt_hash) p.original_prompt_hex response_hash
        (host.experts.hex_encode (encode_tokens p.generated_token_ids)) p.manifest.num_layers
        signature (should_sample host.rate host.experts.sha256 signature cfg.sample_rate) db).1

  unfoldable pub record_b3lite_receipt :
      Text → Text → PipelineState → Text → Option B3LiteConfig → Db → Db
  record_b3lite_receipt request miner_wallet p response_hash none db = db
  record_b3lite_receipt request miner_wallet p response_hash (some cfg) db =
      store_receipt request miner_wallet p response_hash
        (sign_receipt host.experts.hex_encode host.hmac_sha256 cfg.secret
          (receipt_fields request miner_wallet p response_hash))
        cfg db

  -- The hash and the text of the response.
  abbrev pub submit_response : Text → PipelineState → Text → Text × Text → ShardEngine → ShardEngine
  submit_response request p winning_wallet (response_hash, response_hex) e =
      let token_count : ℕ = length p.generated_token_ids % 2 ^ 32 in
      spawn_commit request response_hash token_count
        (create_submission winning_wallet request (some p.manifest.model_id) (some p.prompt_hash)
          none none response_hash response_hex token_count
          (record_b3lite_receipt request winning_wallet p response_hash e.b3lite e.db))
        e

  abbrev pub respond : Text → PipelineState → Option (Text × ℕ) → ShardEngine → ShardEngine
  respond request p none e = e
  respond request p (some (winning_wallet, _)) e =
      submit_response request p winning_wallet
        (build_response (λ bytes. host.experts.hex_encode (host.experts.sha256 bytes))
          host.experts.hex_encode p.generated_token_ids)
        e

  abbrev pub finalize_found : Text → Option PipelineState → ShardEngine → ShardEngine
  finalize_found request none e = e
  finalize_found request (some p) e =
      respond request p (select_winning_wallet p.contributions)
        (record e { pipelines = remove request e.pipelines })

  unfoldable pub finalize_pipeline : Text → ShardEngine → ShardEngine
  finalize_pipeline request e = finalize_found request (lookup request e.pipelines) e
