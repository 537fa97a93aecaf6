-- ===== src/Speculative/Steps.antt =====
-- What the steps of src/opoi/speculative_engine.rs leave of the pipeline that they are about.
use cs_stratum_bridge.Base.{
  ℕ, ◌≡◌, refl, ap, ◌∙◌, if◌then◌else◌, Text, text_key, nat_key, lookup, lookup-insert_same, Bool,
  true, false, Option, none, some, not, ◌&&◌, List, ◌==◌,
}
use cs_stratum_bridge.Registry.{Sender, get}
use cs_stratum_bridge.Wire.{OpoiKvRollbackAck, draft_session_shard_index}
use cs_stratum_bridge.Speculative.Round.{RoundOutcome}
use cs_stratum_bridge.Speculative.Pipeline.{
  Phase, awaiting_draft, awaiting_rollback, SpecPipeline, SpeculativeEngine, emit,
  spawns_submit_shard_result,
}
use cs_stratum_bridge.Speculative.Dispatch.{
  dispatch_draft, pick_drafter, send_draft, draft_with, draft_for, is_awaiting_draft,
}
use cs_stratum_bridge.Speculative.Rollback.{begin_rollback, await_rollback, shard_indices, submits}

pub begin_rollback-phase :
    (request : Text) (o : RoundOutcome) (keep_len k : ℕ) (f : Bool) (e : SpeculativeEngine)
    (p : SpecPipeline)
    → lookup request e.pipelines ≡ some p
    → lookup request (begin_rollback request o keep_len k f e).pipelines
      ≡ some (record p {
        phase = awaiting_rollback (record {
          pending = shard_indices p.shards;
          accepted_count = o.accepted_count;
          k_this_round = k;
          settle_token = o.settle_token;
          keep_len = keep_len;
          is_finalizing_round = f;
        });
      })
unfolding begin_rollback
begin_rollback-phase request o keep_len k f e p here =
    ap
      (λ (q : Option SpecPipeline).
        lookup request (await_rollback request o keep_len k f q e).pipelines)
      here
    ∙ lookup-insert_same request _ _

send_draft-pipelines :
    (request w : Text) (p : SpecPipeline) (tx : Option Sender) (e : SpeculativeEngine)
    → (send_draft request p w tx e).pipelines ≡ e.pipelines
send_draft-pipelines request w p none e = refl
send_draft-pipelines request w p (some tx) e = refl

draft_with-pinned :
    (request : Text) (p : SpecPipeline) (o : Option Text) (e : SpeculativeEngine)
    → lookup request e.pipelines ≡ some p
    → (w : Option Text) × (lookup request (draft_with request p o e).pipelines
        ≡ some (record p { draft_wallet = w }))
draft_with-pinned request p none e here = (p.draft_wallet, here)
draft_with-pinned request p (some w) e here = (
  some w,
  ap (lookup request) (send_draft-pipelines request w p (get w e.registry) _)
      ∙ lookup-insert_same request _ _,
)

pub dispatch_draft-pinned :
    (request : Text) (e : SpeculativeEngine) (p : SpecPipeline)
    → lookup request e.pipelines ≡ some p
    → p.phase ≡ awaiting_draft
    → (w : Option Text) × (lookup request (dispatch_draft request e).pipelines
        ≡ some (record p { draft_wallet = w }))
unfolding dispatch_draft
dispatch_draft-pinned request e p here waits =
    let runs : dispatch_draft request e ≡ (
        if is_awaiting_draft p.phase
        then draft_with request p (pick_drafter p.draft_wallet e.registry) e
        else e) =
      ap (λ (q : Option SpecPipeline). draft_for request q e) here in
    let (w, e') = draft_with-pinned request p (pick_drafter p.draft_wallet e.registry) e here in
    (
      w,
      ap (λ (d : SpeculativeEngine). lookup request d.pipelines)
            (runs
              ∙ ap
                  (λ (f : Phase).
                    if is_awaiting_draft f
                    then draft_with request p (pick_drafter p.draft_wallet e.registry) e
                    else e)
                  waits)
          ∙ e',
    )

and-false : (b : Bool) → (b && false) ≡ false
and-false true = refl
and-false false = refl

pub submits-idle :
    (hex_encode sha256 : List ℕ → Text) (ack : OpoiKvRollbackAck) (hash : Option Text)
    (e : SpeculativeEngine)
    → submits hex_encode sha256 ack hash false e ≡ e
submits-idle hex_encode sha256 ack none e = refl
submits-idle hex_encode sha256 ack (some hash) e =
    ap
      (λ (b : Bool).
        if b then emit (spawns_submit_shard_result ack.request_id ack.shard_index hash) e else e)
      (and-false (not (ack.shard_index == draft_session_shard_index)))
