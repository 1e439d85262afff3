-- ===== src/Team/Router.antt =====
-- internal/team/message_router.go: the messages between the members of a team. A message is an
-- object in an outbox, which Controller.Outbox delivers; the registry of locations is only listed.
pub mod Laws
mod Tests
use aistio.Prelude.{
  ℕ, ◌-◌, String, ◌<>◌, Bool, true, false, ◌&&◌, Option, none, some, List, [], ◌∷◌, map, length,
  drop, ltb, ◌==◌, comparable_text, comparable_number, if◌then◌else◌,
}
use aistio.Prelude.Dict.{Dict, lookup, insert, delete, values}
use aistio.Api.Message
use aistio.Api.Session.{AgentSession}
use aistio.Api.Team.{AgentTeam}
use aistio.Kube.{Client}
use aistio.Team.KubeTaskStore.{labels_of, owner_ref_for}

pub record TeamMessage : Type 0 where
  pub id : String
  pub team_name : String
  pub from : String
  pub to : String
  pub content : String
  pub timestamp : String
  pub delivered : Bool

pub record MemberLocation : Type 0 where
  pub member_name : String
  pub agent_name : String
  pub instance_ref : String
  pub instance_ip : String
  pub session_id : String
  pub connected : Bool

pub record MessageRouter : Type 0 where
  pub locations : Dict String (Dict String MemberLocation)

unfoldable pub new_message_router : MessageRouter
new_message_router = record { locations = [] }

abbrev pub locations_or_empty : Option (Dict String MemberLocation) → Dict String MemberLocation
locations_or_empty none = []
locations_or_empty (some d) = d

unfoldable pub register_member : MessageRouter → String → MemberLocation → MessageRouter
register_member r team_name loc = record r {
  locations =
      insert team_name
        (insert loc.member_name loc (locations_or_empty (lookup team_name r.locations)))
        r.locations;
}

unfoldable pub unregister_member : MessageRouter → String → String → MessageRouter
unregister_member r team_name member_name = elim (lookup team_name r.locations) [
  | none ↦ r
  | some locs ↦ record r { locations = insert team_name (delete member_name locs) r.locations }
]

-- `none` is the error, for an unknown team and for an unknown member.
unfoldable pub get_member_location : MessageRouter → String → String → Option MemberLocation
get_member_location r team_name member_name = elim (lookup team_name r.locations) [
  | none ↦ none
  | some locs ↦ lookup member_name locs
]

unfoldable pub list_members : MessageRouter → String → List MemberLocation
list_members r team_name = values (locations_or_empty (lookup team_name r.locations))

unfoldable pub delete_team : MessageRouter → String → MessageRouter
delete_team r team_name = record r { locations = delete team_name r.locations }

abbrev pub role_label : String
role_label = "agentscope.io/team-role"

abbrev pub text_or_empty : Option String → String
text_or_empty none = ""
text_or_empty (some s) = s

abbrev pub role_of : AgentSession → String
role_of session = text_or_empty (lookup role_label session.metadata.labels)

abbrev pub is_among : String → List String → Bool
is_among x [] = false
is_among x (y ∷ ys) = let rest = is_among x ys in if y == x then true else rest

-- The loop over the sessions, with the roles seen so far.
unfoldable pub distinct_roles : List String → List AgentSession → List String
distinct_roles seen [] = []
distinct_roles seen (session ∷ sessions) =
    let role = role_of session in
    let skipped = distinct_roles seen sessions in
    let taken = distinct_roles (role ∷ seen) sessions in
    if role == "" then skipped else if is_among role seen then skipped else role ∷ taken

-- The messages made so far, and whether the loop ended without an error.
pub record Sent (S : Type 0) : Type 0 where
  pub state : S
  pub messages : List TeamMessage
  pub complete : Bool

module _ {S : Type 0} where
  abbrev pub sent_one : TeamMessage → Sent S → Sent S
  sent_one m r = record r { messages = m ∷ r.messages }

module _ {S : Type 0} (messages : Client S Message.TeamMessage) (sessions : Client S AgentSession)
    (teams : Client S AgentTeam) (rfc3339 : ℕ → String) where
  unfoldable pub new_message_object :
      S → String → String → String → String → String → Message.TeamMessage
  new_message_object s namespace team_name from to content = record {
    metadata = record {
      name = "";
      namespace = namespace;
      generate_name = team_name <> "-msg-";
      labels = labels_of team_name;
      annotations = [];
      finalizers = [];
      owner_references = owner_ref_for teams s namespace team_name;
      uid = "";
      resource_version = 0;
      creation_timestamp = 0;
      deleting = false;
    };
    spec = record {
      team_ref = team_name;
      from = from;
      to = to;
      content = content;
      kind = "message";
      nonce = "";
    };
    status = record { delivered = false; delivered_at = ""; attempts = 0 };
  }

  abbrev pub enqueued : Message.TeamMessage → String → String → String → String → ℕ → TeamMessage
  enqueued msg team_name from to content now = record {
    id = msg.metadata.name;
    team_name = team_name;
    from = from;
    to = to;
    content = content;
    timestamp = rfc3339 now;
    delivered = false;
  }

  unfoldable pub route_message :
      S → String → String → String → String → String → ℕ → S × Option TeamMessage
  route_message s namespace team_name from to content now =
      let (s', made) =
        messages.create s (new_message_object s namespace team_name from to content) in
      elim made [
        | none ↦ (s', none)
        | some msg ↦ (s', some (enqueued msg team_name from to content now))
      ]

  unfoldable pub team_member_roles : S → String → String → Option (List String)
  team_member_roles s namespace team_name = elim (sessions.list s namespace (labels_of team_name)) [
    | none ↦ none
    | some items ↦ some (distinct_roles [] items)
  ]

  -- One message to each recipient but the sender, up to the first error.
  unfoldable pub send_to : S → String → String → String → String → ℕ → List String → Sent S
  send_to s namespace team_name from content now [] = record {
    state = s;
    messages = [];
    complete = true;
  }
  send_to s namespace team_name from content now (to ∷ recipients) =
      let skipped = send_to s namespace team_name from content now recipients in
      let (s', made) =
        messages.create s (new_message_object s namespace team_name from to content) in
      let sent : Sent S = elim made [
        | none ↦ record { state = s'; messages = []; complete = false }
        | some msg ↦
            sent_one (enqueued msg team_name from to content now)
              (send_to s' namespace team_name from content now recipients)
      ] in
      if to == from then skipped else sent

  -- `none` is the error of listing the sessions.
  unfoldable pub broadcast_message : S → String → String → String → String → ℕ → Option (Sent S)
  broadcast_message s namespace team_name from content now =
      elim (team_member_roles s namespace team_name) [
        | none ↦ none
        | some recipients ↦ some (send_to s namespace team_name from content now recipients)
      ]

  unfoldable pub history_entry : Message.TeamMessage → TeamMessage
  history_entry item = record {
    id = item.metadata.name;
    team_name = item.spec.team_ref;
    from = item.spec.from;
    to = item.spec.to;
    content = item.spec.content;
    timestamp = rfc3339 item.metadata.creation_timestamp;
    delivered = item.status.delivered;
  }

  -- A limit that is not positive is 0 here.
  unfoldable pub get_message_history : S → String → String → ℕ → List TeamMessage
  get_message_history s namespace team_name limit =
      elim (messages.list s namespace (labels_of team_name)) [
        | none ↦ []
        | some items ↦
            let msgs = map history_entry items in
            if ltb 0 limit && ltb limit (length msgs) then drop (length msgs - limit) msgs else msgs
      ]
