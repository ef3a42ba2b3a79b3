-- ===== src/EventLoop/Tests.antt =====
-- A client of the access process, and a monitor.
use aiot_edge_gateway.Prelude.{◌≡◌, refl, true, false, [], ◌∷◌, ◌++◌, map, arith}
use aiot_edge_gateway.Prelude.Text.{codes}
use aiot_edge_gateway.Wire.Codec.{InternalMessage, encode_internal_msg}
use aiot_edge_gateway.EventLoop.Loop.{
  EventLoop, data_from, disconnected, accepted, would_block, Event, hang_up, dispatch_event,
  dispatch_events,
}
use aiot_edge_gateway.EventLoop.Watching.{
  IsWatching, finished, event, AreNew, one_more, at_block, dispatch_events-IsWatching,
}
use aiot_edge_gateway.EventLoop.Delivery.{
  Fit, message, no_messages, datagrams, dispatch_event-delivers,
}

abbrev loop : EventLoop
loop = record {
  listen_fds = 4 ∷ [];
  monitor_listen_fds = 5 ∷ [];
  client_fds = 7 ∷ [];
  monitor_client_fds = 8 ∷ [];
  fd_callbacks = 9 ∷ [];
  watched = 4 ∷ 5 ∷ 7 ∷ 8 ∷ 9 ∷ [];
  seen = [];
}

abbrev reading : InternalMessage
reading = record { source_type = 0; node_id = 3; tlv_type = 1; payload = codes "temp=21.5" }

abbrev input : Event
input = record {
  fd = 7;
  is_hangup = false;
  is_input = true;
  accepts = [];
  reads = datagrams (reading ∷ []);
}

-- The same, and the client has closed.
abbrev last_input : Event
last_input = record input { is_hangup = true }

abbrev arrival : Event
arrival = record {
  fd = 4;
  is_hangup = false;
  is_input = true;
  accepts = accepted 11 ∷ would_block ∷ [];
  reads = [];
}

reading-Fit : Fit (reading ∷ [])
unfolding encode_internal_msg
reading-Fit =
    message
      (record {
        source_fits = omega arith;
        node_fits = omega arith;
        tlv_fits = omega arith;
        payload_fits = omega arith;
      })
      (omega arith) no_messages

loop-IsWatching : IsWatching loop
loop-IsWatching = record { known = λ fd. ground arith; apart = λ fd. ground arith }

dispatch_event-delivers_example :
    dispatch_event input loop ≡ record loop { seen = loop.seen ++ map (data_from 7) (reading ∷ []) }
dispatch_event-delivers_example =
    dispatch_event-delivers input loop (reading ∷ []) refl refl refl refl refl refl refl reading-Fit

-- What a client sent before it closed is not read any more.
last_input-lost : (dispatch_event last_input loop).seen ≡ disconnected 7 ∷ []
unfolding dispatch_event hang_up
last_input-lost = refl

arrival-AreNew : AreNew arrival.fd arrival.accepts loop
arrival-AreNew = one_more refl at_block

dispatch_events-IsWatching_example : IsWatching (dispatch_events (arrival ∷ []) loop)
dispatch_events-IsWatching_example =
    dispatch_events-IsWatching (arrival ∷ []) loop (event arrival-AreNew finished) loop-IsWatching
