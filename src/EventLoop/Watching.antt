-- ===== src/EventLoop/Watching.antt =====
-- The sets of descriptors (gateway_core/EventLoop.cpp, lines 68-250 and 284-301).
use aiot_edge_gateway.Prelude.{
  ℕ, ◌≡◌, inl, inr, true, false, not, ◌||◌, ◌&&◌, Option, none, some, List, [], ◌∷◌, ◌==◌, arith,
  Bool-cases, if◌then◌else◌,
}
use aiot_edge_gateway.EventLoop.Loop.{
  EventLoop, Seen, Accept, accepted, would_block, accept_error, Read, Event, count, insert, erase,
  add_client, accept_connection, receive_fd, read_monitor, drop_client, read_client,
  handle_client_data, hang_up, deliver, read_input, dispatch_event, dispatch_events,
}

pub count-insert : (x fd : ℕ) (fds : List ℕ) → count x (insert fd fds) ≡ ((x == fd) || count x fds)
count-insert x fd fds = grind arith

pub count-erase :
    (x fd : ℕ) (fds : List ℕ) → count x (erase fd fds) ≡ (not (x == fd) && count x fds)
count-erase x fd [] = ground arith
count-erase x fd (y ∷ fds) = ground (arith, count-erase x fd fds)

-- Epoll knows exactly the descriptors of the sets, and none is at once of a monitor and of another
-- client.
pub record IsWatching (l : EventLoop) : Type 0 where
  pub known :
      (fd : ℕ)
      → count fd l.watched ≡ (
          count fd l.listen_fds
          || (count fd l.monitor_listen_fds
              || (count fd l.client_fds
                  || (count fd l.monitor_client_fds || count fd l.fd_callbacks))))
  pub apart : (fd : ℕ) → (count fd l.client_fds && count fd l.monitor_client_fds) ≡ false

-- A descriptor of none of the sets.
abbrev pub IsNew : ℕ → EventLoop → Type 0
IsNew fd l = count fd l.watched ≡ false

add_client-IsWatching :
    (listen_fd fd : ℕ) (l : EventLoop)
    → IsNew fd l
    → IsWatching l
    → IsWatching (add_client listen_fd fd l)
unfolding add_client
add_client-IsWatching listen_fd fd l n w = record {
  known = λ x. grind (
    arith,
    w.known x,
    w.known fd,
    count-insert x fd l.watched,
    count-insert x fd l.client_fds,
    count-insert x fd l.monitor_client_fds,
  );
  apart = λ x. grind (
    arith,
    w.apart x,
    w.known x,
    w.known fd,
    n,
    count-insert x fd l.client_fds,
    count-insert x fd l.monitor_client_fds,
  );
}

drop_client-IsWatching :
    (fd : ℕ) (l : EventLoop)
    → count fd l.listen_fds ≡ false
    → count fd l.monitor_listen_fds ≡ false
    → count fd l.monitor_client_fds ≡ false
    → count fd l.fd_callbacks ≡ false
    → IsWatching l
    → IsWatching (drop_client fd l)
drop_client-IsWatching fd l a b c d w = record {
  known = λ x. grind (arith, w.known x, count-erase x fd l.watched, count-erase x fd l.client_fds);
  apart = λ x. grind (arith, w.apart x, count-erase x fd l.client_fds);
}

seen-IsWatching :
    (l : EventLoop) (seen : List Seen) → IsWatching l → IsWatching (record l { seen = seen })
seen-IsWatching l seen w = record { known = w.known; apart = w.apart }

-- Each descriptor that `accept` returns is of none of the sets yet, since one that is open is not
-- returned again.
pub data AreNew (listen_fd : ℕ) : List Accept → EventLoop → Type 0 where
  no_more : {l : EventLoop} → AreNew listen_fd [] l
  one_more :
      {fd : ℕ} {accepts : List Accept} {l : EventLoop}
      → IsNew fd l
      → AreNew listen_fd accepts (add_client listen_fd fd l)
      → AreNew listen_fd (accepted fd ∷ accepts) l
  at_block : {accepts : List Accept} {l : EventLoop} → AreNew listen_fd (would_block ∷ accepts) l
  at_error : {accepts : List Accept} {l : EventLoop} → AreNew listen_fd (accept_error ∷ accepts) l

accept_connection-IsWatching :
    (listen_fd : ℕ) (accepts : List Accept) (l : EventLoop)
    → AreNew listen_fd accepts l
    → IsWatching l
    → IsWatching (accept_connection listen_fd accepts l)
unfolding accept_connection
accept_connection-IsWatching listen_fd [] l n w = w
accept_connection-IsWatching listen_fd (accepted fd ∷ accepts) l (one_more n ns) w =
    accept_connection-IsWatching listen_fd accepts _ ns (add_client-IsWatching listen_fd fd l n w)
accept_connection-IsWatching listen_fd (would_block ∷ accepts) l n w = w
accept_connection-IsWatching listen_fd (accept_error ∷ accepts) l n w = w

receive_fd-IsWatching :
    (passed : Option ℕ) (l : EventLoop) → IsWatching l → IsWatching (receive_fd passed l)
unfolding receive_fd
receive_fd-IsWatching none l w = w
receive_fd-IsWatching (some fd) l w = seen-IsWatching l _ w

read_monitor-IsWatching :
    (reads : List Read) (l : EventLoop) → IsWatching l → IsWatching (read_monitor reads l).1
unfolding read_monitor
read_monitor-IsWatching [] l w = w
read_monitor-IsWatching (Read.received [] passed ∷ reads) l w = receive_fd-IsWatching passed l w
read_monitor-IsWatching (Read.received (b ∷ bs) passed ∷ reads) l w =
    read_monitor-IsWatching reads _ (receive_fd-IsWatching passed l w)
read_monitor-IsWatching (Read.end_of_file ∷ reads) l w = w
read_monitor-IsWatching (Read.again ∷ reads) l w = w
read_monitor-IsWatching (Read.read_error ∷ reads) l w = w

module _ (fd : ℕ) where
  -- A descriptor of no set but perhaps that of the clients.
  pub data IsPlain (l : EventLoop) : Type 0 where
    plain :
        count fd l.listen_fds ≡ false
        → count fd l.monitor_listen_fds ≡ false
        → count fd l.monitor_client_fds ≡ false
        → count fd l.fd_callbacks ≡ false
        → IsPlain l

  drop_plain : (l : EventLoop) → IsPlain l → IsWatching l → IsWatching (drop_client fd l)
  drop_plain l (plain a b c d) w = drop_client-IsWatching fd l a b c d w

  drop_seen :
      (l : EventLoop) (seen : List Seen)
      → IsPlain l
      → IsWatching l
      → IsWatching (drop_client fd (record l { seen = seen }))
  drop_seen l seen (plain a b c d) w =
      drop_client-IsWatching fd (record l { seen = seen }) a b c d (seen-IsWatching l seen w)

  read_client-IsWatching :
      (reads : List Read) (l : EventLoop)
      → IsPlain l
      → IsWatching l
      → IsWatching (read_client fd reads l).1
  unfolding read_client
  read_client-IsWatching [] l p w = w
  read_client-IsWatching (Read.received [] passed ∷ reads) l p w = drop_seen l _ p w
  read_client-IsWatching (Read.received (b ∷ bs) passed ∷ reads) l p w =
      read_client-IsWatching reads l p w
  read_client-IsWatching (Read.end_of_file ∷ reads) l p w = drop_seen l _ p w
  read_client-IsWatching (Read.again ∷ reads) l p w = w
  read_client-IsWatching (Read.read_error ∷ reads) l p w = drop_plain l p w

  drop_monitor-IsWatching :
      (l : EventLoop)
      → count fd l.monitor_client_fds ≡ true
      → count fd l.listen_fds ≡ false
      → count fd l.monitor_listen_fds ≡ false
      → count fd l.fd_callbacks ≡ false
      → IsWatching l
      → IsWatching (record l {
        watched = erase fd l.watched;
        monitor_client_fds = erase fd l.monitor_client_fds;
      })
  drop_monitor-IsWatching l m a b d w = record {
    known = λ x. grind (
      arith,
      w.known x,
      w.apart fd,
      count-erase x fd l.watched,
      count-erase x fd l.monitor_client_fds,
    );
    apart = λ x. grind (arith, w.apart x, count-erase x fd l.monitor_client_fds);
  }

  read_input-IsWatching :
      (reads : List Read) (l : EventLoop)
      → count fd l.listen_fds ≡ false
      → count fd l.monitor_listen_fds ≡ false
      → count fd l.fd_callbacks ≡ false
      → IsWatching l
      → IsWatching (read_input fd reads l)
  unfolding read_input handle_client_data deliver
  read_input-IsWatching reads l a b d w = elim (Bool-cases (count fd l.monitor_client_fds)) [
    | inl m ↦
        rw (read_input, handle_client_data, m)
          (seen-IsWatching _ _ (read_monitor-IsWatching reads l w))
    | inr m ↦
        rw (read_input, handle_client_data, m)
          (seen-IsWatching _ _ (read_client-IsWatching reads l (plain a b m d) w))
  ]

  hang_up-IsWatching :
      (l : EventLoop)
      → count fd l.listen_fds ≡ false
      → count fd l.monitor_listen_fds ≡ false
      → count fd l.fd_callbacks ≡ false
      → IsWatching l
      → IsWatching (hang_up fd l)
  unfolding hang_up
  hang_up-IsWatching l a b d w = elim (Bool-cases (count fd l.monitor_client_fds)) [
    | inl m ↦ rw (hang_up, m) (drop_monitor-IsWatching _ m a b d (seen-IsWatching l _ w))
    | inr m ↦ rw (hang_up, m) (drop_seen l _ (plain a b m d) w)
  ]

-- An event keeps the sets as they are watched.
pub dispatch_event-IsWatching :
    (e : Event) (l : EventLoop)
    → AreNew e.fd e.accepts l
    → IsWatching l
    → IsWatching (dispatch_event e l)
unfolding dispatch_event
dispatch_event-IsWatching e l n w =
    elim (Bool-cases (count e.fd l.listen_fds || count e.fd l.monitor_listen_fds)) [
      | inl a ↦ rw (dispatch_event, a) (accept_connection-IsWatching e.fd e.accepts l n w)
      | inr a ↦
          let b : count e.fd l.listen_fds ≡ false = ground arith in
          let c : count e.fd l.monitor_listen_fds ≡ false = ground arith in
          elim (Bool-cases (count e.fd l.fd_callbacks)) [
            | inl d ↦ rw (dispatch_event, a, d) (seen-IsWatching l _ w)
            | inr d ↦ rw (dispatch_event, a, d) (rest b c d)
          ]
    ]
  where
    rest :
        count e.fd l.listen_fds ≡ false
        → count e.fd l.monitor_listen_fds ≡ false
        → count e.fd l.fd_callbacks ≡ false
        → IsWatching (
            if e.is_hangup
            then hang_up e.fd l
            else if e.is_input
            then read_input e.fd e.reads l
            else l)
    rest b c d =
        ground
          (arith, hang_up-IsWatching e.fd l b c d w, read_input-IsWatching e.fd e.reads l b c d w)

-- The events of a run, where `accept` returns what is not open.
pub data IsNewRun : List Event → EventLoop → Type 0 where
  finished : {l : EventLoop} → IsNewRun [] l
  event :
      {e : Event} {events : List Event} {l : EventLoop}
      → AreNew e.fd e.accepts l
      → IsNewRun events (dispatch_event e l)
      → IsNewRun (e ∷ events) l

-- Through any run of events, whatever the calls on the sockets return, epoll watches exactly the
-- descriptors of the loop's sets, and no descriptor is of a monitor and of another client at once.
pub dispatch_events-IsWatching :
    (events : List Event) (l : EventLoop)
    → IsNewRun events l
    → IsWatching l
    → IsWatching (dispatch_events events l)
unfolding dispatch_events
dispatch_events-IsWatching [] l n w = w
dispatch_events-IsWatching (e ∷ events) l (event n ns) w =
    dispatch_events-IsWatching events (dispatch_event e l) ns (dispatch_event-IsWatching e l n w)
