-- ===== src/Logger/Rendering.antt =====
-- The text of each line of the log, src/ft_system/common/logging.py, with the texts that the parts
-- pass to `event` and `error`.
use Prim.Native.String.{◌++◌}
use fall2026_18749_project.Prelude.{
  ℕ, String, Bool, true, false, Option, none, some, List, [], ◌∷◌, length, nat_eq, if◌then◌else◌,
}
use fall2026_18749_project.Text.{show}
use fall2026_18749_project.Value.{Value, none_value, bool, int, str}
use fall2026_18749_project.Result.{Exn}
use fall2026_18749_project.Protocol.Validate.{show_ℤ}
use fall2026_18749_project.Logger.{
  Direction, request, reply, Phase, before, after, Note, replaying, delivered, add_replica,
  delete_replica, registered, registered_with_gfd, Problem, raised, unregistered_lfd,
  registered_lfd, connection_closed, heartbeat_closed, invalid_heartbeat_message, unavailable,
  divergence, gfd_connection, unknown_command, Tuple, Line, received, sending, state,
  heartbeat_sent, heartbeat_ack, heartbeat_failed, server_heartbeat_received,
  server_heartbeat_ack_sent, server_failed, server_recovered, error, event, duplicate, membership,
}

-- What Python and its library make texts of: `str` of a float, a list or a dict, `json.dumps` of the
-- counters with sorted keys, and the text of an exception or else the name of its class.
pub record Display : Type 0 where
  pub other : Value → String
  pub counters : List (String × ℕ) → String
  pub reason : Exn → String

module _ (display : Display) where
  -- A value in an f-string.
  unfoldable pub value_text : Value → String
  value_text (str s) = s
  value_text (int i) = show_ℤ i
  value_text (bool true) = "True"
  value_text (bool false) = "False"
  value_text none_value = "None"
  value_text v = display.other v

  abbrev pub direction_text : Direction → String
  direction_text request = "request"
  direction_text reply = "reply"

  abbrev pub phase_text : Phase → String
  phase_text before = "before"
  phase_text after = "after"

  unfoldable pub tuple_text : Tuple → String
  unfolding value_text
  tuple_text t =
      "<"
      ++ value_text t.client_id
      ++ ", "
      ++ value_text t.replica_id
      ++ ", "
      ++ value_text t.request_num
      ++ ", "
      ++ direction_text t.direction
      ++ ">"

  unfoldable pub note_text : Note → String
  unfolding value_text
  note_text (replaying replica_id request_id) =
      replica_id ++ ": replaying reply for " ++ value_text request_id
  note_text (delivered number replica_id client_value) =
      "request_num "
      ++ show_ℤ number
      ++ ": Delivered reply from "
      ++ replica_id
      ++ "; client_value = "
      ++ value_text client_value
  note_text (add_replica lfd_id replica_id) = lfd_id ++ ": add replica " ++ replica_id
  note_text (delete_replica lfd_id replica_id) = lfd_id ++ ": delete replica " ++ replica_id
  note_text (registered lfd_id) = "GFD: registered " ++ lfd_id
  note_text (registered_with_gfd lfd_id) = lfd_id ++ ": registered with GFD"

  unfoldable pub problem_text : Problem → String
  problem_text (raised e) = display.reason e
  problem_text (unregistered_lfd e) = "unregistered LFD: " ++ display.reason e
  problem_text (registered_lfd lfd_id e) = lfd_id ++ ": " ++ display.reason e
  problem_text (connection_closed e) = "client connection closed: " ++ display.reason e
  problem_text (heartbeat_closed e) = "heartbeat connection closed: " ++ display.reason e
  problem_text invalid_heartbeat_message = "heartbeat port received an invalid message"
  problem_text (unavailable replica_id e) = replica_id ++ " unavailable: " ++ display.reason e
  problem_text (divergence number replica_id) =
      "replica state divergence on request_num " ++ show_ℤ number ++ ": " ++ replica_id
  problem_text (gfd_connection e) = "GFD connection: " ++ display.reason e
  problem_text (unknown_command command) = "unknown command: " ++ command

  -- `", ".join(members)`
  unfoldable pub joined : List String → String
  joined [] = ""
  joined (m ∷ []) = m
  joined (m ∷ n ∷ ms) = m ++ ", " ++ joined (n ∷ ms)

  unfoldable pub members_text : List String → String
  unfolding joined
  members_text [] = "GFD: 0 members"
  members_text (m ∷ ms) =
      "GFD: "
      ++ show (length (m ∷ ms))
      ++ " "
      ++ (if nat_eq (length (m ∷ ms)) 1 then "member" else "members")
      ++ ": "
      ++ joined (m ∷ ms)

  -- The text of a line, as it is passed to `_write`.
  unfoldable pub line_text : Line → String
  unfolding tuple_text note_text problem_text members_text value_text
  line_text (received t) = "Received " ++ tuple_text t
  line_text (sending t) = "Sending " ++ tuple_text t
  line_text (state replica_id counters phase t) =
      "my_state_"
      ++ replica_id
      ++ " = "
      ++ display.counters counters
      ++ " "
      ++ phase_text phase
      ++ " processing "
      ++ tuple_text t
  line_text (heartbeat_sent lfd_id replica_id count) =
      "[" ++ show_ℤ count ++ "] " ++ lfd_id ++ " sending heartbeat to " ++ replica_id
  line_text (heartbeat_ack lfd_id replica_id count) =
      "[" ++ show_ℤ count ++ "] " ++ lfd_id ++ " receives heartbeat from " ++ replica_id
  line_text (heartbeat_failed lfd_id replica_id count e) =
      "["
      ++ show_ℤ count
      ++ "] "
      ++ lfd_id
      ++ " heartbeat to "
      ++ replica_id
      ++ " failed: "
      ++ display.reason e
  line_text (server_heartbeat_received replica_id lfd_id count) =
      "["
      ++ value_text count
      ++ "] "
      ++ replica_id
      ++ " receives heartbeat from "
      ++ value_text lfd_id
  line_text (server_heartbeat_ack_sent replica_id lfd_id count) =
      "["
      ++ value_text count
      ++ "] "
      ++ replica_id
      ++ " sending heartbeat ACK to "
      ++ value_text lfd_id
  line_text (server_failed replica_id) = replica_id ++ " has died"
  line_text (server_recovered replica_id) = replica_id ++ " has recovered"
  line_text (error component_id problem) = component_id ++ " ERROR: " ++ problem_text problem
  line_text (event note) = note_text note
  line_text (duplicate number replica_id) =
      "request_num " ++ show_ℤ number ++ ": Discarded duplicate reply from " ++ replica_id
  line_text (membership members) = members_text members

  -- `_COLORS` of the line's colour; the lines of `event` have none.
  unfoldable pub color_of : Line → Option String
  color_of (received t) = some "\u{1b}[36m"
  color_of (sending t) = some "\u{1b}[33m"
  color_of (state replica_id counters phase t) = some "\u{1b}[35m"
  color_of (heartbeat_sent lfd_id replica_id count) = some "\u{1b}[34m"
  color_of (heartbeat_ack lfd_id replica_id count) = some "\u{1b}[34m"
  color_of (heartbeat_failed lfd_id replica_id count e) = some "\u{1b}[31m"
  color_of (server_heartbeat_received replica_id lfd_id count) = some "\u{1b}[34m"
  color_of (server_heartbeat_ack_sent replica_id lfd_id count) = some "\u{1b}[34m"
  color_of (server_failed replica_id) = some "\u{1b}[31m"
  color_of (server_recovered replica_id) = some "\u{1b}[32m"
  color_of (error component_id problem) = some "\u{1b}[31m"
  color_of (event note) = none
  color_of (duplicate number replica_id) = some "\u{1b}[36m"
  color_of (membership members) = some "\u{1b}[32m"

  colored : Bool → Option String → String → String
  colored true (some color) line = color ++ line ++ "\u{1b}[0m"
  colored true none line = line
  colored false color line = line

  -- `_write`: what is printed at the time `clock`.
  unfoldable pub write : Bool → String → Line → String
  unfolding line_text color_of colored
  write use_color clock l = colored use_color (color_of l) ("[" ++ clock ++ "] " ++ line_text l)
