-- ===== src/Monitor/External.antt =====
-- src/monitor/external.rs. What the reads and the listener give is an argument, signals is the parsing of
-- JSON; `A` is the type of the signals.
pub mod Lines
use argus_manager.Prelude.{
  Bool, true, false, ◌||◌, Option, none, some, List, [], ◌∷◌, ◌++◌, if◌then◌else◌,
}
use argus_manager.Text.{Text, trim, is_same, strip_prefix, unix_prefix, tcp_prefix}

pub data ExternalTransport : Type 0 where
  unix_socket : (path : Text) → ExternalTransport
  tcp : (addr : Text) → ExternalTransport
  stdin : ExternalTransport

-- "stdin" and "-"
abbrev pub stdin_name : Text
stdin_name = 115 ∷ 116 ∷ 100 ∷ 105 ∷ 110 ∷ []

abbrev dash : Text
dash = 45 ∷ []

abbrev tcp_or_stdin : Option Text → ExternalTransport
tcp_or_stdin none = stdin
tcp_or_stdin (some addr) = tcp addr

abbrev socket_of : Text → Option Text → ExternalTransport
socket_of transport none = tcp_or_stdin (strip_prefix tcp_prefix transport)
socket_of transport (some path) = unix_socket path

-- `ExternalMonitor::new`, of the transport that the configuration names.
unfoldable pub new : Text → ExternalTransport
new transport =
    if is_same transport stdin_name || is_same transport dash
    then stdin
    else socket_of transport (strip_prefix unix_prefix transport)

-- One turn of the reader's loop: what `shutdown` holds once the line has come, the line unless
-- reading it failed, and whether there is still a receiver.
pub record Line : Type 0 where
  pub shutdown : Bool
  pub text : Option Text
  pub receiver : Bool

-- One turn of a listener's loop: what `shutdown` holds, and what accepting gives. A client can be
-- set to blocking or not, and sends lines.
pub data Accepted : Type 0 where
  client : (blocking : Bool) → (lines : List Line) → Accepted
  would_block failed : Accepted

pub record Turn : Type 0 where
  pub shutdown : Bool
  pub accepted : Accepted

module _ {A : Type 0} (parse : Text → Option A) where
  -- A signal with what is sent after it; without a receiver the loop ends.
  abbrev pub sent : Bool → Option A → List A → List A
  sent receiver none rest = rest
  sent true (some a) rest = a ∷ rest
  sent false (some a) rest = []

  abbrev pub taken : Bool → Text → List A → List A
  taken receiver [] rest = rest
  taken receiver (c ∷ cs) rest = sent receiver (parse (c ∷ cs)) rest

  abbrev read : Bool → Option Text → List A → List A
  read receiver none rest = []
  read receiver (some text) rest = taken receiver (trim text) rest

  -- The signals that are sent.
  unfoldable pub run_with_reader : List Line → List A
  run_with_reader [] = []
  run_with_reader (l ∷ ls) =
      let rest = run_with_reader ls in if l.shutdown then [] else read l.receiver l.text rest

  abbrev before : List A → List A × Option Bool → List A × Option Bool
  before signals (rest, result) = (signals ++ rest, result)

  abbrev turn : Accepted → List A × Option Bool → List A × Option Bool
  turn (client true lines) rest = before (run_with_reader lines) rest
  turn (client false lines) rest = ([], some false)
  turn would_block rest = rest
  turn failed rest = ([], some true)

  -- The loop of `run_unix_socket` and `run_tcp_socket`: the signals that are sent, and whether it
  -- returned `Ok` or an error, if it has returned.
  unfoldable pub serve : List Turn → List A × Option Bool
  serve [] = ([], none)
  serve (t ∷ ts) =
      let rest = serve ts in if t.shutdown then ([], some true) else turn t.accepted rest

  -- Both sockets are bound first.
  abbrev pub run_socket : Bool → List Turn → List A × Option Bool
  run_socket binds turns = if binds then serve turns else ([], some false)

  -- `run`, of a stdin that ends after the lines.
  unfoldable pub run : ExternalTransport → List Line → Bool → List Turn → List A × Option Bool
  run stdin lines binds turns = (run_with_reader lines, some true)
  run (unix_socket path) lines binds turns = run_socket binds turns
  run (tcp addr) lines binds turns = run_socket binds turns
