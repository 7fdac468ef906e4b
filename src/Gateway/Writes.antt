-- ===== src/Gateway/Writes.antt =====
-- Who writes through `handleUpdate` of src/collaboration/collaboration.gateway.ts.
use meridian_backend.Prelude.{
  ℕ, Bool, true, false, Option, none, some, Result, ok, err, ◌≡◌, refl, sym, ap, ◌∙◌, ◌⊎◌, inl, inr,
  find_where, update_where, ◌++◌, subst, Option-cases, Bool-cases,
}
use meridian_backend.Schema.{Bytes, Operation, Database}
use meridian_backend.Operations.{Generated, Classified, record_update}
use meridian_backend.Yjs.{Update}
use meridian_backend.Gateway.{
  Client, Instance, has_client_id, count_message, is_within, is_viewer, warnings, classify_bytes,
  settle_update, write_classified, update_of, on_client, handle_update,
}

settle_update-database :
    (queue_is_up : Bool) (d id : ℕ) (update : Bytes) (r : Result (ℕ × Operation) × Database)
    (g : Instance)
    → (settle_update queue_is_up d id update r g).database ≡ r.1
settle_update-database queue_is_up d id update (err e, db) g = refl
settle_update-database false d id update (ok (outbox_id, op), db) g = refl
settle_update-database true d id update (ok (outbox_id, op), db) g = refl

module _ (limit : ℕ) (decode : Bytes → Result Update) (t : Generated) (queue_is_up : Bool) where
  -- A message is recorded for this client: what holds of the client and of the message.
  pub record IsWrite (update : Bytes) (g : Instance) (c : Client) (db' : Database) : Type 0 where
    pub document_id : ℕ
    pub classified : Classified
    pub authenticated : c.authenticated ≡ true
    pub edits : is_viewer c.role ≡ false
    pub joined : c.document_id ≡ some document_id
    pub within : is_within limit (count_message c) ≡ true
    pub classifies : classify_bytes limit decode update ≡ ok classified
    pub recorded : db' ≡ (record_update t document_id c.user_id update classified g.database).1

  abbrev Outcome : Bytes → Instance → Client → Database → Type 0
  Outcome update g c db' = (db' ≡ g.database) ⊎ IsWrite update g c db'

  module _ (update : Bytes) (g : Instance) (c : Client) where
    abbrev noted : Instance
    noted = record g {
      clients = update_where (has_client_id c.id) (λ _. count_message c) g.clients;
      sent = g.sent ++ warnings limit (count_message c);
    }

    abbrev changed : Instance
    changed = update_of limit decode t queue_is_up update g c

    module _ (d : ℕ) (known : c.authenticated ≡ true) (edits : is_viewer c.role ≡ false)
        (joined : c.document_id ≡ some d) (within : is_within limit (count_message c) ≡ true) where
      reaches_write :
          changed.database
          ≡ (write_classified limit decode t queue_is_up d c update noted
              (classify_bytes limit decode update)).database
      reaches_write = simp (known, edits, joined, within) refl

      by_class :
          (r : Result Classified)
          → classify_bytes limit decode update ≡ r
          → Outcome update g c changed.database
      by_class (err e) is_err = inl (
          reaches_write
          ∙ ap (λ r. (write_classified limit decode t queue_is_up d c update noted r).database)
              is_err)
      by_class (ok classified) is_ok = inr (record {
        document_id = d;
        classified = classified;
        authenticated = known;
        edits = edits;
        joined = joined;
        within = within;
        classifies = is_ok;
        recorded =
            reaches_write
            ∙ ap (λ r. (write_classified limit decode t queue_is_up d c update noted r).database)
                is_ok
            ∙ settle_update-database queue_is_up d c.id update
                (record_update t d c.user_id update classified g.database) noted;
      })

    by_client :
        (a v : Bool) (d : Option ℕ)
        → c.authenticated ≡ a
        → is_viewer c.role ≡ v
        → c.document_id ≡ d
        → Outcome update g c changed.database
    by_client false v d e1 e2 e3 = inl (rw e1 refl)
    by_client true true d e1 e2 e3 = inl (rw (e1, e2) refl)
    by_client true false none e1 e2 e3 = inl (rw (e1, e2, e3) refl)
    by_client true false (some d) e1 e2 e3 = elim (Bool-cases (is_within limit (count_message c))) [
      | inr over ↦ inl (rw (e1, e2, e3, over) refl)
      | inl within ↦ by_class d e1 e2 e3 within (classify_bytes limit decode update) refl
    ]

  -- A message either leaves the database as it is, or it is recorded for the socket that sent it:
  -- an authenticated client that is no viewer, in the document that it has joined, within the rate
  -- limit, of an update that can be classified.
  pub handle_update-IsWrite :
      (update : Bytes) (g : Instance) (id : ℕ)
      → ((handle_update limit decode t queue_is_up id update g).database ≡ g.database)
        ⊎ ((c : Client) × (find_where (has_client_id id) g.clients ≡ some c)
            × IsWrite update g c (handle_update limit decode t queue_is_up id update g).database)
  unfolding handle_update
  handle_update-IsWrite update g id =
      elim (Option-cases (find_where (has_client_id id) g.clients)) [
        | inl nobody ↦
            inl (ap (λ o. (on_client limit decode t queue_is_up update g o).database) nobody)
        | inr (c, found) ↦
            let same : (handle_update limit decode t queue_is_up id update g).database
                ≡ (changed update g c).database =
              rw found refl in
            elim (by_client update g c c.authenticated (is_viewer c.role) c.document_id refl refl
              refl) [
                | inl kept ↦ inl (same ∙ kept)
                | inr w ↦ inr (c, found, subst (IsWrite update g c) (sym same) w)
              ]
      ]
