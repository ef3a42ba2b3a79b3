-- ===== src/EventLoop/Loop.antt =====
-- The class `EventLoop` (gateway_core/EventLoop.{h,cpp}). What the calls on sockets return is a
-- parameter: each event carries the answers that its handler meets. The callbacks are what is seen of
-- the loop.
use aiot_edge_gateway.Prelude.{
  ℕ, ◌^◌, Bool, false, ◌||◌, Option, none, some, List, [], ◌∷◌, ◌++◌, take, ◌==◌, map,
  if◌then◌else◌,
}
use aiot_edge_gateway.Wire.Codec.{InternalMessage, DecodeResult, decode_internal_msg}

-- A set of descriptors.
abbrev pub count : ℕ → List ℕ → Bool
count fd [] = false
count fd (x ∷ fds) = (fd == x) || count fd fds

abbrev pub insert : ℕ → List ℕ → List ℕ
insert fd fds = if count fd fds then fds else fd ∷ fds

abbrev pub erase : ℕ → List ℕ → List ℕ
erase fd [] = []
erase fd (x ∷ fds) = let rest = erase fd fds in if fd == x then rest else x ∷ rest

-- The callbacks that were called.
pub data Seen : Type 0 where
  disconnected : ℕ → Seen
  data_from : ℕ → InternalMessage → Seen
  external : ℕ → Seen
  fd_received : ℕ → Seen

-- `watched` are the descriptors that epoll knows; `seen` is in the order of the calls.
pub record EventLoop : Type 0 where
  pub listen_fds : List ℕ
  pub monitor_listen_fds : List ℕ
  pub client_fds : List ℕ
  pub monitor_client_fds : List ℕ
  pub fd_callbacks : List ℕ
  pub watched : List ℕ
  pub seen : List Seen

-- What `accept` returns.
pub data Accept : Type 0 where
  accepted : ℕ → Accept
  would_block : Accept
  accept_error : Accept

-- What `read` and `recvmsg` return; a datagram may carry a descriptor.
pub data Read : Type 0 where
  received : List ℕ → Option ℕ → Read
  end_of_file : Read
  again : Read
  read_error : Read

pub record Event : Type 0 where
  pub fd : ℕ
  -- EPOLLERR, EPOLLRDHUP or EPOLLHUP.
  pub is_hangup : Bool
  pub is_input : Bool
  pub accepts : List Accept
  pub reads : List Read

abbrev pub see : Seen → EventLoop → EventLoop
see s l = record l { seen = l.seen ++ (s ∷ []) }

-- One that `accept` returned.
unfoldable pub add_client : ℕ → ℕ → EventLoop → EventLoop
add_client listen_fd fd l =
    if count listen_fd l.monitor_listen_fds
    then record l {
      monitor_client_fds = insert fd l.monitor_client_fds;
      watched = insert fd l.watched;
    }
    else record l { client_fds = insert fd l.client_fds; watched = insert fd l.watched }

unfoldable pub accept_connection : ℕ → List Accept → EventLoop → EventLoop
accept_connection listen_fd [] l = l
accept_connection listen_fd (accepted fd ∷ accepts) l =
    accept_connection listen_fd accepts (add_client listen_fd fd l)
accept_connection listen_fd (would_block ∷ accepts) l = l
accept_connection listen_fd (accept_error ∷ accepts) l = l

-- A received descriptor goes to its callback.
unfoldable pub receive_fd : Option ℕ → EventLoop → EventLoop
receive_fd none l = l
receive_fd (some passed) l = see (fd_received passed) l

abbrev pub max_msg_size : ℕ
max_msg_size = 2 ^ 20

abbrev pub monitor_buffer : ℕ
monitor_buffer = 4096

abbrev pub cons_decoded : DecodeResult → List InternalMessage → List InternalMessage
cons_decoded result messages = if result.ok then result.msg ∷ messages else messages

-- The messages of a monitor's client.
unfoldable pub read_monitor : List Read → EventLoop → List InternalMessage × EventLoop
read_monitor [] l = ([], l)
read_monitor (received bytes passed ∷ reads) l =
    let l' = receive_fd passed l in
    let (messages, l'') = read_monitor reads l' in
    elim bytes [
      | [] ↦ ([], l')
      | b ∷ bs ↦ (cons_decoded (decode_internal_msg (take monitor_buffer (b ∷ bs))) messages, l'')
    ]
read_monitor (end_of_file ∷ reads) l = ([], l)
read_monitor (again ∷ reads) l = ([], l)
read_monitor (read_error ∷ reads) l = ([], l)

-- The descriptor is closed and with that unknown to epoll.
abbrev pub drop_client : ℕ → EventLoop → EventLoop
drop_client fd l = record l { watched = erase fd l.watched; client_fds = erase fd l.client_fds }

-- The messages of another client; a datagram of no bytes reads as the end.
unfoldable pub read_client : ℕ → List Read → EventLoop → List InternalMessage × EventLoop
read_client fd [] l = ([], l)
read_client fd (received bytes passed ∷ reads) l =
    let (messages, l') = read_client fd reads l in
    elim bytes [
      | [] ↦ ([], drop_client fd (see (disconnected fd) l))
      | b ∷ bs ↦ (cons_decoded (decode_internal_msg (take max_msg_size (b ∷ bs))) messages, l')
    ]
read_client fd (end_of_file ∷ reads) l = ([], drop_client fd (see (disconnected fd) l))
read_client fd (again ∷ reads) l = ([], l)
read_client fd (read_error ∷ reads) l = ([], drop_client fd l)

unfoldable pub handle_client_data : ℕ → List Read → EventLoop → List InternalMessage × EventLoop
handle_client_data fd reads l =
    if count fd l.monitor_client_fds then read_monitor reads l else read_client fd reads l

unfoldable pub hang_up : ℕ → EventLoop → EventLoop
hang_up fd l =
    let l' = see (disconnected fd) l in
    if count fd l'.monitor_client_fds
    then record l' {
      watched = erase fd l'.watched;
      monitor_client_fds = erase fd l'.monitor_client_fds;
    }
    else drop_client fd l'

unfoldable pub deliver : ℕ → List InternalMessage → EventLoop → EventLoop
deliver fd messages l = record l { seen = l.seen ++ map (data_from fd) messages }

unfoldable pub read_input : ℕ → List Read → EventLoop → EventLoop
read_input fd reads l = let (messages, l') = handle_client_data fd reads l in deliver fd messages l'

-- One event of `start`'s loop.
unfoldable pub dispatch_event : Event → EventLoop → EventLoop
dispatch_event e l =
    if count e.fd l.listen_fds || count e.fd l.monitor_listen_fds
    then accept_connection e.fd e.accepts l
    else if count e.fd l.fd_callbacks
    then see (external e.fd) l
    else if e.is_hangup
    then hang_up e.fd l
    else if e.is_input
    then read_input e.fd e.reads l
    else l

unfoldable pub dispatch_events : List Event → EventLoop → EventLoop
dispatch_events [] l = l
dispatch_events (e ∷ events) l = dispatch_events events (dispatch_event e l)

unfoldable pub add_external_fd : ℕ → EventLoop → EventLoop
add_external_fd fd l = record l {
  fd_callbacks = insert fd l.fd_callbacks;
  watched = insert fd l.watched;
}

-- The descriptors whose write fails with EPIPE or ECONNRESET, as `is_dead` says.
unfoldable pub dead_monitors : (ℕ → Bool) → List ℕ → List ℕ
dead_monitors is_dead [] = []
dead_monitors is_dead (fd ∷ fds) =
    let dead = dead_monitors is_dead fds in if is_dead fd then fd ∷ dead else dead

unfoldable pub drop_monitors : List ℕ → EventLoop → EventLoop
drop_monitors [] l = l
drop_monitors (fd ∷ dead) l =
    drop_monitors dead (record l {
      watched = erase fd l.watched;
      monitor_client_fds = erase fd l.monitor_client_fds;
    })

unfoldable pub send_to_monitor : (ℕ → Bool) → EventLoop → EventLoop
send_to_monitor is_dead l = drop_monitors (dead_monitors is_dead l.monitor_client_fds) l
