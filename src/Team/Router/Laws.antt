-- ===== src/Team/Router/Laws.antt =====
-- Who is a recipient, what a broadcast sends, and how much a history holds.
use aistio.Prelude.{
  subst, ℕ, ◌-◌, ◌≤◌, ◌<◌, String, ◌≡◌, ◌≢◌, refl, sym, ap, ◌∙◌, ◌↔◌, ◌⊎◌, inl, inr, Bool, true,
  false, none, some, List, [], ◌∷◌, ◌++◌, map, Memᴰ, length, length-drop, arith, ltb, ◌==◌, ==_iff,
  comparable_text, comparable_number, Bool-cases, Option-cases, keep, not,
}
use mathlib.Core.List.{append-nil, append_assoc}
use aistio.Api.Message
use aistio.Api.Session.{AgentSession}
use aistio.Api.Team.{AgentTeam}
use aistio.Kube.{Client}
use aistio.Team.KubeTaskStore.{labels_of}
use aistio.Team.Router.{
  TeamMessage, Sent, sent_one, role_of, is_among, distinct_roles, new_message_object, send_to,
  get_message_history, history_entry, enqueued,
}

is_among-Mem : (x : String) (ys : List String) → is_among x ys ≡ true → Memᴰ x ys
is_among-Mem x [] h = cc
is_among-Mem x (y ∷ ys) h = elim (Bool-cases (y == x)) [
  | inl e ↦ Memᴰ.head (sym ((==_iff y x).0 e))
  | inr e ↦ Memᴰ.tail (is_among-Mem x ys (ground (arith, h, e)))
]

Mem-is_among : (x : String) (ys : List String) → Memᴰ x ys → is_among x ys ≡ true
Mem-is_among x [] m = elim m [ ]
Mem-is_among x (y ∷ ys) (Memᴰ.head q) = ground (arith, q, ==_iff y x)
Mem-is_among x (y ∷ ys) (Memᴰ.tail m) = ground (arith, Mem-is_among x ys m)

-- No text stands twice in the list, and none is empty.
abbrev pub AreRoles : List String → Type 0
AreRoles [] = Unit
AreRoles (x ∷ xs) = (x ≢ "") × (Memᴰ x xs → ⊥) × AreRoles xs

-- A role of a listed session.
abbrev pub IsRole : List AgentSession → String → Type 0
IsRole items role = (role ≢ "") × ((s : AgentSession) × Memᴰ s items × (role_of s ≡ role))

IsRole-tail :
    (s : AgentSession) (items : List AgentSession) (role : String)
    → IsRole items role
    → IsRole (s ∷ items) role
IsRole-tail s items role (n, (u, m, e)) = (n, (u, Memᴰ.tail m, e))

-- The loop lists the roles of the sessions that it has not seen.
distinct_roles-Mem :
    (seen : List String) (items : List AgentSession) (role : String)
    → Memᴰ role (distinct_roles seen items)
    → IsRole items role × (Memᴰ role seen → ⊥)
unfolding distinct_roles
distinct_roles-Mem seen [] role m = elim m [ ]
distinct_roles-Mem seen (s ∷ items) role m = elim (Bool-cases (role_of s == "")) [
  | inl e ↦
      let r = distinct_roles-Mem seen items role (rw (distinct_roles, e) at m) in
      (IsRole-tail s items role r.0, r.1)
  | inr e ↦ elim (Bool-cases (is_among (role_of s) seen)) [
    | inl a ↦
        let r = distinct_roles-Mem seen items role (rw (distinct_roles, e, a) at m) in
        (IsRole-tail s items role r.0, r.1)
    | inr a ↦
        taken e a (rw (distinct_roles, e, a) at m)
          (distinct_roles-Mem (role_of s ∷ seen) items role)
  ]
]
  where
    taken :
        (role_of s == "") ≡ false
        → is_among (role_of s) seen ≡ false
        → Memᴰ role (role_of s ∷ distinct_roles (role_of s ∷ seen) items)
        → (Memᴰ role (distinct_roles (role_of s ∷ seen) items)
            → IsRole items role × (Memᴰ role (role_of s ∷ seen) → ⊥))
        → IsRole (s ∷ items) role × (Memᴰ role seen → ⊥)
    taken e a (Memᴰ.head q) ih = (
      ((λ n. ground (arith, e, n, q, ==_iff (role_of s) "")), (s, Memᴰ.head refl, sym q)),
      λ k. ground (arith, a, q, Mem-is_among role seen k),
    )
    taken e a (Memᴰ.tail k) ih =
        let r = ih k in (IsRole-tail s items role r.0, λ j. r.1 (Memᴰ.tail j))

IsRole-rest :
    (s : AgentSession) (items : List AgentSession) (role : String)
    → role_of s ≢ role
    → IsRole (s ∷ items) role
    → IsRole items role
IsRole-rest s items role d (n, (u, Memᴰ.head q, e)) = absurd (d (ap role_of (sym q) ∙ e))
IsRole-rest s items role d (n, (u, Memᴰ.tail m, e)) = (n, (u, m, e))

absent-cons : (x y : String) (ys : List String) → x ≢ y → (Memᴰ x ys → ⊥) → Memᴰ x (y ∷ ys) → ⊥
absent-cons x y ys d n (Memᴰ.head q) = d q
absent-cons x y ys d n (Memᴰ.tail m) = n m

Mem-distinct_roles :
    (seen : List String) (items : List AgentSession) (role : String)
    → IsRole items role
    → (Memᴰ role seen → ⊥)
    → Memᴰ role (distinct_roles seen items)
unfolding distinct_roles
Mem-distinct_roles seen [] role (_, (u, m, _)) n = elim m [ ]
Mem-distinct_roles seen (s ∷ items) role r n = elim (Bool-cases (role_of s == "")) [
  | inl e ↦
      let d : role_of s ≢ role = λ q. r.0 (sym q ∙ (==_iff (role_of s) "").0 e) in
      rw (distinct_roles, e) (Mem-distinct_roles seen items role (IsRole-rest s items role d r) n)
  | inr e ↦ elim (Bool-cases (is_among (role_of s) seen)) [
    | inl a ↦
        let d : role_of s ≢ role =
          λ q. n (subst (λ x. Memᴰ x seen) q (is_among-Mem (role_of s) seen a)) in
        rw (distinct_roles, e, a)
          (Mem-distinct_roles seen items role (IsRole-rest s items role d r) n)
    | inr a ↦
        rw (distinct_roles, e, a)
          (elim (Bool-cases (role_of s == role)) [
            | inl q ↦ Memᴰ.head (sym ((==_iff (role_of s) role).0 q))
            | inr q ↦
                let d : role_of s ≢ role = λ h. ground (arith, q, h, ==_iff (role_of s) role) in
                Memᴰ.tail (
                  Mem-distinct_roles (role_of s ∷ seen) items role (IsRole-rest s items role d r)
                    (absent-cons role (role_of s) seen (λ h. d (sym h)) n))
          ])
  ]
]

distinct_roles-AreRoles :
    (seen : List String) (items : List AgentSession) → AreRoles (distinct_roles seen items)
unfolding distinct_roles
distinct_roles-AreRoles seen [] = tt
distinct_roles-AreRoles seen (s ∷ items) = elim (Bool-cases (role_of s == "")) [
  | inl e ↦ rw (distinct_roles, e) (distinct_roles-AreRoles seen items)
  | inr e ↦ elim (Bool-cases (is_among (role_of s) seen)) [
    | inl a ↦ rw (distinct_roles, e, a) (distinct_roles-AreRoles seen items)
    | inr a ↦
        rw (distinct_roles, e, a)
          (
            (λ n. ground (arith, e, n, ==_iff (role_of s) "")),
            (λ m. (distinct_roles-Mem (role_of s ∷ seen) items (role_of s) m).1 (Memᴰ.head refl)),
            distinct_roles-AreRoles (role_of s ∷ seen) items,
          )
  ]
]

-- The recipients of a broadcast are the roles of the team's sessions: each role that some listed
-- session has and that is not empty, once, and nothing else.
pub distinct_roles_exact :
    (items : List AgentSession)
    → AreRoles (distinct_roles [] items)
      × ((role : String) → Memᴰ role (distinct_roles [] items) ↔ IsRole items role)
distinct_roles_exact items = (
  distinct_roles-AreRoles [] items,
  λ role. (
    λ m. (distinct_roles-Mem [] items role m).0,
    λ r. Mem-distinct_roles [] items role r (λ m. elim m [ ]),
  ),
)

abbrev pub is_other : String → String → Bool
is_other from to = not (to == from)

-- `sent` is the record of a server on the specifications of the messages that it has created.
abbrev pub IsLogged :
    {S : Type 0} → (S → List Message.TeamMessageSpec) → Client S Message.TeamMessage → Type 0
IsLogged {S} sent messages =
    (s : S) (a b : Message.TeamMessage)
    → (messages.create s a).1 ≡ some b
    → sent (messages.create s a).0 ≡ sent s ++ (a.spec ∷ [])

-- What the record that the router returns says of a message.
abbrev pub spec_of : TeamMessage → Message.TeamMessageSpec
spec_of m = record {
  team_ref = m.team_name;
  from = m.from;
  to = m.to;
  content = m.content;
  kind = "message";
  nonce = "";
}

abbrev pub spec_to : String → String → String → String → Message.TeamMessageSpec
spec_to team_name from content to = record {
  team_ref = team_name;
  from = from;
  to = to;
  content = content;
  kind = "message";
  nonce = "";
}

module _ {S : Type 0} (messages : Client S Message.TeamMessage)
    (sent : S → List Message.TeamMessageSpec) (team_name from content : String) where
  abbrev wanted : String → Message.TeamMessageSpec
  wanted = spec_to team_name from content

  -- All have been sent, or the creation of the message to the next failed.
  abbrev pub HasEnded : S → List String → List String → Sent S → Type 0
  HasEnded s taken rest r =
      ((r.complete ≡ true)
        × (rest ≡ [])
        × (sent r.state ≡ sent s ++ map (spec_to team_name from content) taken))
      ⊎ ((r.complete ≡ false)
          × ((next : String) × (later : List String) × (before : S) × (a : Message.TeamMessage)
              × (rest ≡ next ∷ later)
              × (sent before ≡ sent s ++ map (spec_to team_name from content) taken)
              × (a.spec ≡ spec_to team_name from content next)
              × (messages.create before a ≡ (r.state, none))))

  -- A message was created for each of `taken`, in order, and the records returned are of these.
  abbrev pub IsSentTo : S → List String → Sent S → Type 0
  IsSentTo s recipients r =
      (taken : List String) × (rest : List String) × (keep (is_other from) recipients
        ≡ taken ++ rest)
      × (map spec_of r.messages ≡ map (spec_to team_name from content) taken)
      × HasEnded s taken rest r

  IsSentTo-sender :
      (s : S) (to : String) (recipients : List String) (r : Sent S)
      → (to == from) ≡ true
      → IsSentTo s recipients r
      → IsSentTo s (to ∷ recipients) r
  IsSentTo-sender s to recipients r e (taken, rest, q, k, c) =
      (taken, rest, ground (arith, e, q), k, c)

  IsSentTo-failed :
      (s s' : S) (to : String) (recipients : List String) (a : Message.TeamMessage)
      → (to == from) ≡ false
      → a.spec ≡ spec_to team_name from content to
      → messages.create s a ≡ (s', none)
      → IsSentTo s (to ∷ recipients) (record { state = s'; messages = []; complete = false })
  IsSentTo-failed s s' to recipients a e p c = (
    [],
    to ∷ keep (is_other from) recipients,
    ground (arith, e),
    refl,
    inr (refl, (to, keep (is_other from) recipients, s, a, refl, sym (append-nil (sent s)), p, c)),
  )

  HasEnded-one :
      (s s' : S) (m : TeamMessage) (taken rest : List String) (r : Sent S)
      → sent s' ≡ sent s ++ (spec_to team_name from content m.to ∷ [])
      → HasEnded s' taken rest r
      → HasEnded s (m.to ∷ taken) rest (sent_one m r)
  HasEnded-one s s' m taken rest r l (inl (c, n, q)) =
      inl (c, n, q ∙ ap (λ xs. xs ++ map wanted taken) l ∙ append_assoc (sent s) _ _)
  HasEnded-one s s' m taken rest r l (inr (c, (next, later, before, a, n, q, p, k))) = inr (
    c,
    (
      next,
      later,
      before,
      a,
      n,
      q ∙ ap (λ xs. xs ++ map wanted taken) l ∙ append_assoc (sent s) _ _,
      p,
      k,
    ),
  )

  IsSentTo-one :
      (s s' : S) (m : TeamMessage) (recipients : List String) (r : Sent S)
      → (m.to == from) ≡ false
      → spec_of m ≡ spec_to team_name from content m.to
      → sent s' ≡ sent s ++ (spec_to team_name from content m.to ∷ [])
      → IsSentTo s' recipients r
      → IsSentTo s (m.to ∷ recipients) (sent_one m r)
  IsSentTo-one s s' m recipients r e p l (taken, rest, q, k, c) = (
    m.to ∷ taken,
    rest,
    ground (arith, e, q),
    ap (λ x. x ∷ map spec_of r.messages) p ∙ ap (λ xs. wanted m.to ∷ xs) k,
    HasEnded-one s s' m taken rest r l c,
  )

module _ {S : Type 0} (messages : Client S Message.TeamMessage) (sessions : Client S AgentSession)
    (teams : Client S AgentTeam) (rfc3339 : ℕ → String) where
  -- On a server with a record of the messages that it has created, a broadcast creates, in order and
  -- one to each, messages with the team, the sender and the content to the recipients other than the
  -- sender, and returns their records: to all of them where it ends without an error, and otherwise
  -- to those before the first one whose message the server did not create.
  pub send_to_recipients :
      (sent : S → List Message.TeamMessageSpec)
      → IsLogged sent messages
      → (s : S) (namespace team_name from content : String) (now : ℕ) (recipients : List String)
      → IsSentTo messages sent team_name from content s recipients (
          send_to messages sessions teams rfc3339 s namespace team_name from content now recipients)
  unfolding send_to new_message_object
  send_to_recipients sent logged s namespace team_name from content now [] =
      ([], [], refl, refl, inl (refl, refl, sym (append-nil (sent s))))
  send_to_recipients sent logged s namespace team_name from content now (to ∷ recipients) =
      let msg =
        new_message_object messages sessions teams rfc3339 s namespace team_name from to content in
      let s' = (messages.create s msg).0 in
      let IsGoal : Sent S → Type 0 =
        IsSentTo messages sent team_name from content s (to ∷ recipients) in
      let next : S → Sent S = λ u.
        send_to messages sessions teams rfc3339 u namespace team_name from content now recipients in
      let all : Sent S =
        send_to messages sessions teams rfc3339 s namespace team_name from content now
          (to ∷ recipients) in
      let ih = λ (u : S).
        send_to_recipients sent logged u namespace team_name from content now recipients in
      elim (Bool-cases (to == from)) [
        | inl e ↦
            let q : next s ≡ all = ground (arith, e) in
            subst IsGoal q (
              IsSentTo-sender messages sent team_name from content s to recipients (next s) e
                (ih s))
        | inr e ↦ elim (Option-cases (messages.create s msg).1) [
          | inl n ↦
              let q : record { state = s'; messages = []; complete = false } ≡ all =
                ground (arith, e, n) in
              subst IsGoal q (
                IsSentTo-failed messages sent team_name from content s s' to recipients msg e refl
                  (λ i. (s', n i)))
          | inr (made, n) ↦
              let m = enqueued messages sessions teams rfc3339 made team_name from to content now in
              let q : sent_one m (next s') ≡ all = ground (arith, e, n) in
              subst IsGoal q (
                IsSentTo-one messages sent team_name from content s s' m recipients (next s') e refl
                  (logged s msg made n) (ih s'))
        ]
      ]

  -- A history with a positive limit holds at most so many messages.
  pub get_message_history_bounded :
      (s : S) (namespace team_name : String) (limit : ℕ)
      → 0 < limit
      → length (get_message_history messages sessions teams rfc3339 s namespace team_name limit)
        ≤ limit
  unfolding get_message_history
  get_message_history_bounded s namespace team_name limit h =
      elim (Option-cases (messages.list s namespace (labels_of team_name))) [
        | inl e ↦ ground (arith, e)
        | inr (items, e) ↦
            let msgs = map (history_entry messages sessions teams rfc3339) items in
            elim (Bool-cases (ltb limit (length msgs))) [
              | inl b ↦ ground (arith, e, b, h, length-drop (length msgs - limit) msgs)
              | inr b ↦ ground (arith, e, b, h)
            ]
      ]
