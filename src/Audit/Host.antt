-- ===== src/Audit/Host.antt =====
-- What an audit of src/opoi/b3lite_audit.rs asks of its surroundings, and the auditor that runs as a
-- process of its own: `dispatch_via_subprocess`.
use cs_stratum_bridge.Base.{
  ℕ, if◌then◌else◌, Text, codes, decimal, Bool, Option, List, [], ◌∷◌, ◌++◌,
}
use cs_stratum_bridge.Wire.{AuditPositionWire, OpoiAuditAssign, OpoiAuditResult}
use cs_stratum_bridge.Registry.{Sender}
use cs_stratum_bridge.Db.{B3LiteReceipt}
use cs_stratum_bridge.Speculative.Pipeline.{ModelSource}
use cs_stratum_bridge.Audit.{B3LiteAuditor}

-- A result whose error is a text.
pub data Attempt (A : Type 0) : Type 0 where
  done : A → Attempt A
  failure : Text → Attempt A

-- The object that is written for the process.
pub record AuditRequest : Type 0 where
  pub model_id : Text
  pub gguf_url : Text
  pub gguf_sha256 : Text
  pub tokenizer_url : Text
  pub tokenizer_sha256 : Text
  pub cache_dir : Text
  pub prompt_text : Text
  pub committed_token_ids : List ℕ
  pub total_layers : ℕ

-- What the process left: `status` and `stderr` as they are printed.
pub record Output : Type 0 where
  pub success : Bool
  pub status : Text
  pub stdout : List ℕ
  pub stderr : Text

-- What the other handlers do while an audit waits; a pipeline that ends creates a receipt of these fields,
-- but for the number and the status, which the database gives it.
pub data Meanwhile : Type 0 where
  audit_result : Text → OpoiAuditResult → Meanwhile
  disconnect : Text → Meanwhile
  creates_receipt : B3LiteReceipt → Meanwhile

-- The surroundings, with a state of their own. `send` tells whether the channel is open. `meanwhile`
-- is what the handlers do until the answer to a request is overdue.
pub record Host (W : Type 0) : Type 0 where
  pub hex_encode : List ℕ → Text
  pub hex_decode : Text → Option (List ℕ)
  pub from_utf8 : List ℕ → Option Text
  pub resolve : Text → W → Option ModelSource × W
  pub send : Sender → OpoiAuditAssign → W → Bool × W
  pub meanwhile : Text → W → List Meanwhile × W
  pub create_dir_all : Text → W → Attempt (Unit {0}) × W
  pub join : Text → Text → Text
  pub to_vec : AuditRequest → Attempt (List ℕ)
  pub write : Text → List ℕ → W → Attempt (Unit {0}) × W
  pub output : Text → List Text → W → Attempt Output × W
  pub remove_file : Text → W → W
  pub from_slice : List ℕ → Attempt (List AuditPositionWire)
  pub positions_json : List AuditPositionWire → Text

abbrev audit_request : Text → B3LiteReceipt → ModelSource → Text → List ℕ → AuditRequest
audit_request cache_dir r source prompt_text ids = record {
  model_id = r.model_id;
  gguf_url = source.gguf_url;
  gguf_sha256 = r.gguf_sha256;
  tokenizer_url = source.tokenizer_url;
  tokenizer_sha256 = source.tokenizer_sha256;
  cache_dir = cache_dir;
  prompt_text = prompt_text;
  committed_token_ids = ids;
  total_layers = r.total_layers;
}

abbrev arguments : Text → List Text
arguments path =
    codes "--address"
    ∷ codes "b3lite-auditor"
    ∷ codes "--worker"
    ∷ codes "b3lite-auditor"
    ∷ codes "--pool"
    ∷ codes "127.0.0.1:1"
    ∷ codes "--audit-request"
    ∷ path
    ∷ []

module _ {W : Type 0} (host : Host W) where
  abbrev parsed_positions : Attempt (List AuditPositionWire) → Attempt (List AuditPositionWire)
  parsed_positions (done positions) = done positions
  parsed_positions (failure e) = failure (codes "could not parse auditor stdout: " ++ e)

  abbrev pub read_output : Text → Attempt Output → Attempt (List AuditPositionWire)
  read_output bin (failure e) =
      failure (codes "could not spawn auditor subprocess (" ++ (bin ++ (codes "): " ++ e)))
  read_output bin (done out) =
      if out.success
      then parsed_positions (host.from_slice out.stdout)
      else failure
          (codes "auditor subprocess exited " ++ (out.status ++ (codes ": " ++ out.stderr)))

  abbrev write_request : Text → Attempt (List ℕ) → W → Attempt (Unit {0}) × W
  write_request path (done bytes) w = host.write path bytes w
  write_request path (failure e) w = (failure e, w)

  abbrev run_process : Text → Text → Attempt (Unit {0}) × W → Attempt (List AuditPositionWire) × W
  run_process bin path (failure e, w) = (failure (codes "could not write request file: " ++ e), w)
  run_process bin path (done _, w) =
      let (out, w') = host.output bin (arguments path) w in
      (read_output bin out, host.remove_file path w')

  abbrev in_cache_dir :
      B3LiteAuditor
      → Text
      → AuditRequest
      → Attempt (Unit {0}) × W
      → Attempt (List AuditPositionWire) × W
  in_cache_dir a path request (failure e, w) =
      (failure (codes "could not create cache_dir: " ++ e), w)
  in_cache_dir a path request (done _, w) =
      run_process a.cs_miner_bin path (write_request path (host.to_vec request) w)

  unfoldable pub dispatch_via_subprocess :
      B3LiteReceipt
      → ModelSource
      → Text
      → List ℕ
      → B3LiteAuditor
      → W
      → Attempt (List AuditPositionWire) × W
  dispatch_via_subprocess r source prompt_text ids a w =
      in_cache_dir a (host.join a.cache_dir (codes "audit_req_" ++ (decimal r.id ++ codes ".json")))
        (audit_request a.cache_dir r source prompt_text ids) (host.create_dir_all a.cache_dir w)
