-- ===== src/EventLoop/Delivery.antt =====
-- What the data callback and the monitors get (gateway_core/EventLoop.cpp, lines 119-229 and 284-301).
use aiot_edge_gateway.Prelude.{
  ℕ, ◌≤◌, ◌≡◌, ◌≢◌, refl, sym, ap, ap₂, ◌∙◌, Bool, true, false, not, ◌&&◌, Option, none, List, [],
  ◌∷◌, ◌++◌, map, length, take, arith, append-nil, take_all,
}
use aiot_edge_gateway.Wire.Codec.{InternalMessage, encode_internal_msg, decode_internal_msg}
use aiot_edge_gateway.Wire.RoundTrip.{IsEncodable, decode-encode}
use aiot_edge_gateway.EventLoop.Loop.{
  EventLoop, data_from, Read, received, again, Event, count, read_client, handle_client_data,
  deliver, read_input, dispatch_event, max_msg_size, cons_decoded, dead_monitors, drop_monitors,
  send_to_monitor,
}
use aiot_edge_gateway.EventLoop.Watching.{count-erase}

-- Messages that fit the codec and the buffer.
pub data Fit : List InternalMessage → Type 0 where
  no_messages : Fit []
  message :
      {msg : InternalMessage} {msgs : List InternalMessage}
      → IsEncodable msg
      → length (encode_internal_msg msg) ≤ max_msg_size
      → Fit msgs
      → Fit (msg ∷ msgs)

-- What the socket has for a descriptor: the datagrams of the messages, and no more.
abbrev pub datagrams : List InternalMessage → List Read
datagrams [] = again ∷ []
datagrams (msg ∷ msgs) = received (encode_internal_msg msg) none ∷ datagrams msgs

decode-datagram :
    (msg : InternalMessage) (messages : List InternalMessage)
    → IsEncodable msg
    → length (encode_internal_msg msg) ≤ max_msg_size
    → cons_decoded (decode_internal_msg (take max_msg_size (encode_internal_msg msg))) messages
      ≡ msg ∷ messages
decode-datagram msg messages v n =
    ap (λ r. cons_decoded r messages)
      (ap decode_internal_msg (
          take_all max_msg_size (encode_internal_msg msg) n
          ∙ sym (append-nil (encode_internal_msg msg)))
        ∙ decode-encode msg [] v)

encoded-nonempty : (msg : InternalMessage) → encode_internal_msg msg ≢ []
unfolding encode_internal_msg
encoded-nonempty msg h = ground arith

read_client-received :
    (fd : ℕ) (bytes : List ℕ) (passed : Option ℕ) (reads : List Read) (l : EventLoop)
    → bytes ≢ []
    → read_client fd (received bytes passed ∷ reads) l ≡ (
      cons_decoded (decode_internal_msg (take max_msg_size bytes)) (read_client fd reads l).0,
      (read_client fd reads l).1,
    )
unfolding read_client
read_client-received fd [] passed reads l n = absurd (n refl)
read_client-received fd (b ∷ bs) passed reads l n = refl

read_client-datagrams :
    (fd : ℕ) (msgs : List InternalMessage) (l : EventLoop)
    → Fit msgs
    → read_client fd (datagrams msgs) l ≡ (msgs, l)
unfolding read_client
read_client-datagrams fd [] l f = refl
read_client-datagrams fd (msg ∷ msgs) l (message v n f) =
    let ih = read_client-datagrams fd msgs l f in
    read_client-received fd (encode_internal_msg msg) none (datagrams msgs) l (encoded-nonempty msg)
    ∙ ap₂ (λ m l. (m, l))
        (ap (cons_decoded (decode_internal_msg (take max_msg_size (encode_internal_msg msg))))
            (ap (λ r. r.0) ih)
          ∙ decode-datagram msg msgs v n)
        (ap (λ r. r.1) ih)

-- When a client that is not a monitor has sent messages that the codec and the buffer hold, the event
-- for its descriptor hands exactly these messages to the data callback, in their order, and changes
-- nothing else.
pub dispatch_event-delivers :
    (e : Event) (l : EventLoop) (msgs : List InternalMessage)
    → count e.fd l.listen_fds ≡ false
    → count e.fd l.monitor_listen_fds ≡ false
    → count e.fd l.fd_callbacks ≡ false
    → count e.fd l.monitor_client_fds ≡ false
    → e.is_hangup ≡ false
    → e.is_input ≡ true
    → e.reads ≡ datagrams msgs
    → Fit msgs
    → dispatch_event e l ≡ record l { seen = l.seen ++ map (data_from e.fd) msgs }
unfolding dispatch_event read_input handle_client_data deliver
dispatch_event-delivers e l msgs a b c d h i r f =
    rw (dispatch_event, a, b, c, h, i, read_input, handle_client_data, d, r)
      (ap (λ q. deliver e.fd q.0 q.1) (read_client-datagrams e.fd msgs l f))

drop_monitors-count :
    (dead : List ℕ) (l : EventLoop) (x : ℕ)
    → count x (drop_monitors dead l).monitor_client_fds
      ≡ (not (count x dead) && count x l.monitor_client_fds)
unfolding drop_monitors
drop_monitors-count [] l x = ground arith
drop_monitors-count (fd ∷ dead) l x =
    grind (arith, drop_monitors-count dead, count-erase x fd l.monitor_client_fds)

dead_monitors-count :
    (is_dead : ℕ → Bool) (fds : List ℕ) (x : ℕ)
    → count x (dead_monitors is_dead fds) ≡ (is_dead x && count x fds)
unfolding dead_monitors
dead_monitors-count is_dead [] x = ground arith
dead_monitors-count is_dead (fd ∷ fds) x = grind (arith, dead_monitors-count is_dead fds x)

-- After a broadcast the monitors are those before it whose descriptor took the write.
pub send_to_monitor-keeps :
    (is_dead : ℕ → Bool) (l : EventLoop) (x : ℕ)
    → count x (send_to_monitor is_dead l).monitor_client_fds
      ≡ (not (is_dead x) && count x l.monitor_client_fds)
unfolding send_to_monitor
send_to_monitor-keeps is_dead l x = grind (
  arith,
  drop_monitors-count (dead_monitors is_dead l.monitor_client_fds) l x,
  dead_monitors-count is_dead l.monitor_client_fds x,
)
