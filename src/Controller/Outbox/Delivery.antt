-- ===== src/Controller/Outbox/Delivery.antt =====
-- When a run of the watcher hands a message to the deliverer, and what it writes.
use aistio.Prelude.{
  subst, sym, ap, ◌∙◌, ℕ, ◌+◌, ◌<◌, String, ◌≡◌, ◌≢◌, refl, ◌⊎◌, inl, inr, Bool, true, false,
  Option, none, some, List, [], ◌∷◌, arith, leb, ◌==◌, ==_iff, comparable_text, comparable_number,
  if◌then◌else◌, Bool-cases,
}
use aistio.Prelude.Dict.{lookup}
use aistio.Api.Message.{TeamMessage}
use aistio.Api.Session.{AgentSession}
use aistio.Kube.{Client, Got, found, not_found, get_failed}
use aistio.Team.Router.{text_or_empty}
use aistio.Controller.{Result}
use aistio.Controller.Outbox.{
  TeamEventDeliverer, reconcile, deliver, deliver_to, deliver_first, record_delivery, attempted,
  marked_delivered, reconcile_got,
}

module _ {S D : Type 0} (messages : Client S TeamMessage) (sessions : Client S AgentSession)
    (deliverer : TeamEventDeliverer D) (rfc3339 : ℕ → String) where
  -- The message is not delivered and has been tried fewer than five times, names a recipient, and
  -- the first session that is listed with the recipient's role in the team is of an agent with a
  -- connected instance.
  abbrev pub IsDue : S → D → TeamMessage → AgentSession → String → Type 0
  IsDue s d msg sess instance_id =
      (msg.status.delivered ≡ false)
      × (msg.status.attempts < 5)
      × (msg.spec.to ≢ "")
      × ((rest : List AgentSession) × (sessions.list s msg.metadata.namespace (
              ("agentscope.io/team", msg.spec.team_ref)
              ∷ ("agentscope.io/team-role", msg.spec.to)
              ∷ [])
            ≡ some (sess ∷ rest)))
      × (deliverer.get_connected_instance d msg.metadata.namespace
            (text_or_empty (lookup "agentscope.io/agent" sess.metadata.labels))
          ≡ some instance_id)

  -- What the deliverer is asked.
  abbrev pub handed : D → TeamMessage → String → D × Bool
  handed d msg instance_id =
      deliverer.deliver_team_event d msg.metadata.namespace instance_id msg.spec.team_ref
        msg.spec.kind msg.spec.to msg.spec.content

  -- The message was handed over once, and a status write was sent that counts the attempt and, where
  -- the deliverer reported no error, marks the message as delivered.
  abbrev pub IsHandedOver : S → D → TeamMessage → String → ℕ → S × D × Result → Type 0
  IsHandedOver s d msg instance_id now r =
      (r.1 ≡ (handed d msg instance_id).0)
      × ((((handed d msg instance_id).1 ≡ true)
            × (r.0
                ≡ (messages.update_status s (record msg {
                  status = record {
                    delivered = true;
                    delivered_at = rfc3339 now;
                    attempts = msg.status.attempts + 1;
                  };
                })).0))
          ⊎ (((handed d msg instance_id).1 ≡ false)
              × (r.0
                  ≡ (messages.update_status s (record msg {
                    status = record msg.status { attempts = msg.status.attempts + 1 };
                  })).0)))

  record_delivery-HandedOver :
      (s : S) (d : D) (msg : TeamMessage) (instance_id : String) (now : ℕ) (ok : Bool)
      → (handed d msg instance_id).1 ≡ ok
      → let r = record_delivery messages sessions deliverer rfc3339 s msg now ok in
        IsHandedOver s d msg instance_id now (r.0, (handed d msg instance_id).0, r.1)
  unfolding record_delivery attempted marked_delivered
  record_delivery-HandedOver s d msg instance_id now true e = (refl, inl (e, refl))
  record_delivery-HandedOver s d msg instance_id now false e = (refl, inr (e, refl))

  -- Nothing was handed over or written.
  abbrev pub IsQuiet : S → D → S × D × Result → Type 0
  IsQuiet s d r = (r.0 ≡ s) × (r.1 ≡ d)

  -- A run leaves everything as it is, or hands over a message that is due.
  abbrev pub IsRun : S → D → Got TeamMessage → ℕ → S × D × Result → Type 0
  IsRun s d g now r =
      IsQuiet s d r
      ⊎ ((msg : TeamMessage) × (sess : AgentSession) × (instance_id : String) × (g ≡ found msg)
          × IsDue s d msg sess instance_id
          × IsHandedOver s d msg instance_id now r)

  if-false : (c : Bool) (x y : S × D × Result) → c ≡ false → (if c then x else y) ≡ y
  if-false true x y h = cc
  if-false false x y h = refl

  deliver_to-HandedOver :
      (s : S) (d : D) (msg : TeamMessage) (sess : AgentSession) (instance_id : String) (now : ℕ)
      → deliverer.get_connected_instance d msg.metadata.namespace
          (text_or_empty (lookup "agentscope.io/agent" sess.metadata.labels))
        ≡ some instance_id
      → IsHandedOver s d msg instance_id now
          (deliver_to messages sessions deliverer rfc3339 s d msg sess now)
  unfolding deliver_to
  deliver_to-HandedOver s d msg sess instance_id now c =
      rw (deliver_to, c)
        (record_delivery-HandedOver s d msg instance_id now (handed d msg instance_id).1 refl)

  deliver-due :
      (s : S) (d : D) (msg : TeamMessage) (sess : AgentSession) (instance_id : String) (now : ℕ)
      → IsDue s d msg sess instance_id
      → IsHandedOver s d msg instance_id now
          (deliver messages sessions deliverer rfc3339 s d msg now)
  unfolding deliver
  deliver-due s d msg sess instance_id now (fresh, few, named, (rest, l), c) =
      let many : leb 5 msg.status.attempts ≡ false = ground (arith, few) in
      let to : (msg.spec.to == "") ≡ false = elim (Bool-cases (msg.spec.to == "")) [
        | inl e ↦ absurd (named ((==_iff msg.spec.to "").0 e))
        | inr e ↦ e
      ] in
      let q : deliver messages sessions deliverer rfc3339 s d msg now
          ≡ deliver_to messages sessions deliverer rfc3339 s d msg sess now =
        if-false msg.status.delivered _ _ fresh
        ∙ if-false (leb 5 msg.status.attempts) _ _ many
        ∙ if-false (msg.spec.to == "") _ _ to
        ∙ ap (λ o. deliver_first messages sessions deliverer rfc3339 s d msg o now) l in
      subst (IsHandedOver s d msg instance_id now) (sym q)
        (deliver_to-HandedOver s d msg sess instance_id now c)

  if-IsRun :
      (s : S) (d : D) (g : Got TeamMessage) (now : ℕ) (c : Bool) (x y : S × D × Result)
      → (c ≡ true → IsRun s d g now x)
      → (c ≡ false → IsRun s d g now y)
      → IsRun s d g now (if c then x else y)
  if-IsRun s d g now true x y p q = p refl
  if-IsRun s d g now false x y p q = q refl

  module _ (s : S) (d : D) (msg : TeamMessage) (now : ℕ) (fresh : msg.status.delivered ≡ false)
      (few : leb 5 msg.status.attempts ≡ false) (to : (msg.spec.to == "") ≡ false) where
    deliver_to-IsRun :
        (sess : AgentSession) (rest : List AgentSession) (o : Option String)
        → sessions.list s msg.metadata.namespace (
            ("agentscope.io/team", msg.spec.team_ref)
            ∷ ("agentscope.io/team-role", msg.spec.to)
            ∷ [])
          ≡ some (sess ∷ rest)
        → deliverer.get_connected_instance d msg.metadata.namespace
            (text_or_empty (lookup "agentscope.io/agent" sess.metadata.labels))
          ≡ o
        → IsRun s d
            (found msg)
            now
            (deliver_to messages sessions deliverer rfc3339 s d msg sess now)
    unfolding deliver_to
    deliver_to-IsRun sess rest none l c = rw (deliver_to, c) (inl (refl, refl))
    deliver_to-IsRun sess rest (some i) l c =
        let named : msg.spec.to ≢ "" = λ q. ground (arith, to, q, ==_iff msg.spec.to "") in
        inr (
          msg,
          sess,
          i,
          refl,
          (fresh, ground (arith, few), named, (rest, l), c),
          deliver_to-HandedOver s d msg sess i now c,
        )

    deliver_first-IsRun :
        (o : Option (List AgentSession))
        → sessions.list s msg.metadata.namespace (
            ("agentscope.io/team", msg.spec.team_ref)
            ∷ ("agentscope.io/team-role", msg.spec.to)
            ∷ [])
          ≡ o
        → IsRun s d
            (found msg)
            now
            (deliver_first messages sessions deliverer rfc3339 s d msg o now)
    deliver_first-IsRun none l = inl (refl, refl)
    deliver_first-IsRun (some []) l = inl (refl, refl)
    deliver_first-IsRun (some (sess ∷ rest)) l =
        deliver_to-IsRun sess rest
          (deliverer.get_connected_instance d msg.metadata.namespace
            (text_or_empty (lookup "agentscope.io/agent" sess.metadata.labels)))
          l refl

  deliver-IsRun :
      (s : S) (d : D) (msg : TeamMessage) (now : ℕ)
      → IsRun s d (found msg) now (deliver messages sessions deliverer rfc3339 s d msg now)
  unfolding deliver
  deliver-IsRun s d msg now =
      if-IsRun s d (found msg) now msg.status.delivered _ _ (λ e. inl (refl, refl))
        (λ fresh.
          if-IsRun s d (found msg) now (leb 5 msg.status.attempts) _ _ (λ e. inl (refl, refl))
            (λ few.
              if-IsRun s d (found msg) now (msg.spec.to == "") _ _ (λ e. inl (refl, refl))
                (λ to.
                  deliver_first-IsRun s d msg now fresh few to
                    (sessions.list s msg.metadata.namespace (
                      ("agentscope.io/team", msg.spec.team_ref)
                      ∷ ("agentscope.io/team-role", msg.spec.to)
                      ∷ []))
                    refl)))

  got-IsRun :
      (s : S) (d : D) (g : Got TeamMessage) (now : ℕ)
      → IsRun s d g now (reconcile_got messages sessions deliverer rfc3339 s d g now)
  got-IsRun s d not_found now = inl (refl, refl)
  got-IsRun s d get_failed now = inl (refl, refl)
  got-IsRun s d (found msg) now = deliver-IsRun s d msg now

  -- A run of the watcher with a deliverer either changes nothing, or has read a message that is due
  -- (not delivered, fewer than five attempts, a recipient whose first session is of an agent with a
  -- connected instance), hands it over once, and sends a status write that counts the attempt and
  -- marks the message as delivered where the deliverer reports no error; and where it has read a
  -- message that is due, it does the latter.
  pub reconcile_hands_over :
      (s : S) (d : D) (namespace name : String) (now : ℕ)
      → let r = reconcile messages sessions deliverer rfc3339 s d namespace name now in
        IsRun s d (messages.get s namespace name) now r
        × ((msg : TeamMessage) (sess : AgentSession) (instance_id : String)
            → messages.get s namespace name ≡ found msg
            → IsDue s d msg sess instance_id
            → IsHandedOver s d msg instance_id now r)
  unfolding reconcile
  reconcile_hands_over s d namespace name now = (
    got-IsRun s d (messages.get s namespace name) now,
    λ msg sess instance_id g due. rw (reconcile, g) (deliver-due s d msg sess instance_id now due),
  )
