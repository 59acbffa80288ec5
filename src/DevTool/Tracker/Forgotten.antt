-- ===== src/DevTool/Tracker/Forgotten.antt =====
-- Requests that no response can be found to answer.
use mitm_proxy.Base.{
  ◌≡◌, ◌≢◌, ap, sym, ◌∙◌, subst, true, List, [], ◌++◌, Option, none, some, ℕ, All, is_some, arith,
}
use mitm_proxy.Text.{Bytes}
use mitm_proxy.Text.Table.{Table, find, find-store_self}
use mitm_proxy.Http.Header.{Header}
use mitm_proxy.DevTool.Rules.{Url, Request}
use mitm_proxy.DevTool.Records.{add_record}
use mitm_proxy.DevTool.Tracker.{
  TrackedRequest, PendingRequest, DevToolProxy, new_body, move_request, Found, pending, unknown,
  take_request, Answer, record_of, record_response,
}
use mitm_proxy.DevTool.Tracker.Steps.{
  World, Step, post_config, clear, body_goes_on, request, read, respond, write_record, Steps, here,
  next, next_request,
}
use mitm_proxy.DevTool.Tracker.Tables.{
  All-drop, is_some-store, find-delete-none, find-delete_self, take_pending-Keeps,
  with_records-Keeps, track_request_only-Spares, Keeps, Spares,
}

-- The request is in the table of those whose bodies have ended, and nothing refers to it.
pub record IsForgotten (id : Bytes) (w : World) : Type 0 where
  pub is_named : id ≢ []
  pub kept : is_some (find id w.proxy.tracked_requests) ≡ true
  pub gone : find id w.proxy.pending_requests ≡ none
  pub unread : All (λ r. r.0 ≢ id) w.readers
  pub unanswered : All (λ a. a.request_id ≢ id) w.answers

module _ (order : Header → Header) (request_uri url_text : Url → Bytes)
    (since : Option ℕ → ℕ → Bytes) where
  record_response-Keeps :
      (rid id : Bytes) (now : ℕ) (a : Answer) (s t : DevToolProxy)
      → a.request_id ≢ id
      → record_response order request_uri since rid now a s ≡ some t
      → Keeps id s t
  unfolding record_response take_request
  record_response-Keeps rid id now a s t h e =
      let (taken, u) = take_request a.request_id now s in
      with_records-Keeps id s u t
        (add_record u.config.max_request_history
          (record_of order request_uri since rid now a taken (u.bodies a.body).content)
          u.request_records)
        (take_pending-Keeps a.request_id id now (find a.request_id s.pending_requests) s h) e

  -- A response is taken for a request that is pending, or for none.
  Found-other :
      (id : Bytes) {k : Bytes} (req : Request) (m : Table PendingRequest)
      → id ≢ []
      → find id m ≡ none
      → Found url_text req m k
      → k ≢ id
  Found-other id req m named gone (pending k p e same) = λ f. cc (e, gone, f)
  Found-other id req m named gone (unknown h) = λ f. named (sym f)

  Step-IsForgotten :
      (id : Bytes) {w v : World} (label : Option Bytes)
      → label ≢ some id
      → Step order request_uri url_text since w v label
      → IsForgotten id w
      → IsForgotten id v
  Step-IsForgotten id label h (post_config cfg e) forgotten = ground (arith)
  Step-IsForgotten id label h (clear e) forgotten = ground (arith)
  Step-IsForgotten id label h (body_goes_on a b e) forgotten = ground (arith)
  Step-IsForgotten id {w} {v} label h (request k now req t s named tracks e) forgotten =
      let other : k ≢ id = λ f. h (ap some f) in
      let spared : Spares id w.proxy s =
        subst (λ r. Spares id w.proxy r.1) tracks
          (track_request_only-Spares k id now req w.proxy other) in
      subst (IsForgotten id) (sym e) (record {
        is_named = forgotten.is_named;
        kept = ap (λ m. is_some (find id m)) spared.same_tracked ∙ forgotten.kept;
        gone = spared.same_pending ∙ forgotten.gone;
        unread = (other, forgotten.unread);
        unanswered = forgotten.unanswered;
      })
  Step-IsForgotten id {w} {v} label h (read k t front back e is_done f) forgotten =
      let (other, rest) =
        All-drop (λ r. r.0 ≢ id) front back (k, t)
          (subst (All (λ r. r.0 ≢ id)) e forgotten.unread) in
      subst (IsForgotten id) (sym f) (
        unfold move_request in
        record {
          is_named = forgotten.is_named;
          kept = is_some-store k id t w.proxy.tracked_requests forgotten.kept;
          gone = find-delete-none k id w.proxy.pending_requests forgotten.gone;
          unread = rest;
          unanswered = forgotten.unanswered;
        })
  Step-IsForgotten id {w} {v} label h (respond k req resp tracked found e) forgotten =
      subst (IsForgotten id) (sym e) (
        unfold new_body in
        record {
          is_named = forgotten.is_named;
          kept = forgotten.kept;
          gone = forgotten.gone;
          unread = forgotten.unread;
          unanswered = (
            Found-other id req w.proxy.pending_requests forgotten.is_named forgotten.gone found,
            forgotten.unanswered,
          );
        })
  Step-IsForgotten id {w} {v} label h (write_record k now a front back s e is_done writes f)
        forgotten =
      let (other, rest) =
        All-drop (λ b. b.request_id ≢ id) front back a
          (subst (All (λ b. b.request_id ≢ id)) e forgotten.unanswered) in
      let keeps = record_response-Keeps k id now a w.proxy s other writes in
      subst (IsForgotten id) (sym f) (record {
        is_named = forgotten.is_named;
        kept = keeps.keeps_tracked forgotten.kept;
        gone = keeps.keeps_gone forgotten.gone;
        unread = forgotten.unread;
        unanswered = rest;
      })

  Steps-IsForgotten :
      (id : Bytes) {w v : World} {ids : List Bytes}
      → Steps order request_uri url_text since w ids v
      → All (λ k. k ≢ id) ids
      → IsForgotten id w
      → IsForgotten id v
  Steps-IsForgotten id here h forgotten = forgotten
  Steps-IsForgotten id (next r s) h forgotten =
      Step-IsForgotten id none (λ e. cc) s (Steps-IsForgotten id r h forgotten)
  Steps-IsForgotten id (next_request k r s) (g, h) forgotten =
      Step-IsForgotten id (some k) (λ e. g (cc)) s (Steps-IsForgotten id r h forgotten)

  -- A request whose body ends before a response was found to answer it, and whose ID is its own, is
  -- never taken by a record: in every later state its entry is still in the table of the tracked
  -- requests, and no response that waits was found to answer it.
  pub IsForgotten-later :
      (w : World) {u : World} (id : Bytes) (t : TrackedRequest)
      (front back : List (Bytes × TrackedRequest)) (ids : List Bytes)
      → id ≢ []
      → All (λ r. r.0 ≢ id) (front ++ back)
      → All (λ a. a.request_id ≢ id) w.answers
      → All (λ k. k ≢ id) ids
      → Steps order request_uri url_text since
          (record w { proxy = move_request id t w.proxy; readers = front ++ back })
          ids
          u
      → IsForgotten id u
  IsForgotten-later w {u} id t front back ids named unread unanswered own steps =
      Steps-IsForgotten id steps own (
        unfold move_request in
        record {
          is_named = named;
          kept = ap is_some (find-store_self id t w.proxy.tracked_requests);
          gone = find-delete_self id w.proxy.pending_requests;
          unread = unread;
          unanswered = unanswered;
        })
