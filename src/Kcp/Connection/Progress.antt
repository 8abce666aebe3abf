-- ===== src/Kcp/Connection/Progress.antt =====
-- The methods that move a connection, and the parts of `flush`, beside the steps of its state machine.
use gzv2ray_v.Kcp.Connection.{
  active, ready_to_close, peer_closed, terminating, peer_terminating, terminated,
}
use gzv2ray_v.Kcp.Go.{sub_u32}
use gzv2ray_v.Kcp.Connection.Steps.{
  Follows, expires, both_close, both_terminate, by_close, by_input, by_flush, from_state,
  same_state, Follows-refl, finishes, Follows-trans, closes, active_terminate, gives_up,
  peer_closed_closes, peer_closes, peer_closed_terminate, peer_terminating_closes, dies,
}
use gzv2ray_v.Kcp.Connection.{
  close, peer_closed_in, handle_option, terminate_in, measured, input_segment, input_loop, input,
  expire_in, drained_in, flush_terminating, timeout_in, Connection, State, on_peer_closed,
  on_terminate, ping, Segment, close_in, terminating, conversation_of, ready_to_close,
  peer_terminating, sub_u32, peer_closed, option_close, command_terminate, terminated,
}
use gzv2ray_v.Kcp.Segment.{
  data_segment, ack_segment, cmd_segment, Segment, option_close, command_terminate,
}
use gzv2ray_v.Kcp.Sending
use gzv2ray_v.Prelude.{
  ℕ, inl, inr, none, some, refl, [], Bool-cases, ◌∷◌, List, ◌≡◌, Option, ◌%◌, leb, ltb, ◌==◌,
}

pub close-Follows : (c : Connection) (clock : State → ℕ) → Follows by_close c (close c clock).0
unfolding close
close-Follows c clock = by_state c.state refl
  where
    by_state : (s : State) → c.state ≡ s → Follows by_close c (close_in s c clock).0
    by_state active e = from_state c active ready_to_close (clock ready_to_close) e closes
    by_state peer_closed e =
        from_state c peer_closed terminating (clock terminating) e peer_closed_closes
    by_state peer_terminating e =
        from_state c peer_terminating terminated (clock terminated) e peer_terminating_closes
    by_state ready_to_close e = Follows-refl c
    by_state terminating e = Follows-refl c
    by_state terminated e = Follows-refl c

peer_closed_in-Follows :
    (s : State) (c : Connection) (clock : State → ℕ)
    → c.state ≡ s
    → Follows by_input c (peer_closed_in s c clock)
unfolding peer_closed_in
peer_closed_in-Follows ready_to_close c clock e = from_state c _ terminating _ e both_close
peer_closed_in-Follows active c clock e = from_state c _ peer_closed _ e peer_closes
peer_closed_in-Follows peer_closed c clock e = Follows-refl c
peer_closed_in-Follows terminating c clock e = Follows-refl c
peer_closed_in-Follows peer_terminating c clock e = Follows-refl c
peer_closed_in-Follows terminated c clock e = Follows-refl c

handle_option-Follows :
    (c : Connection) (opt : ℕ) (clock : State → ℕ) → Follows by_input c (handle_option c opt clock)
unfolding handle_option on_peer_closed
handle_option-Follows c opt clock = elim (Bool-cases (opt % 2 == option_close)) [
  | inl e ↦ rw e (peer_closed_in-Follows c.state c clock refl)
  | inr e ↦ rw e (Follows-refl c)
]

terminate_in-Follows :
    (s : State) (c : Connection) (clock : State → ℕ)
    → c.state ≡ s
    → Follows by_input c (terminate_in s c clock)
unfolding terminate_in
terminate_in-Follows active c clock e = from_state c _ peer_terminating _ e active_terminate
terminate_in-Follows peer_closed c clock e =
    from_state c _ peer_terminating _ e peer_closed_terminate
terminate_in-Follows ready_to_close c clock e = from_state c _ terminating _ e both_close
terminate_in-Follows terminating c clock e = from_state c _ terminated _ e both_terminate
terminate_in-Follows peer_terminating c clock e = Follows-refl c
terminate_in-Follows terminated c clock e = Follows-refl c

measured-same :
    (c : Connection) (rtt : Option ℕ) (current : ℕ)
    → ((measured c rtt current).state ≡ c.state)
      × ((measured c rtt current).terminations ≡ c.terminations)
unfolding measured
measured-same c none current = (refl, refl)
measured-same c (some rtt) current = (refl, refl)

input_segment-Follows :
    (c : Connection) (seg : Segment) (current : ℕ) (clock : State → ℕ)
    → Follows by_input c (input_segment c seg current clock)
unfolding input_segment on_terminate
input_segment-Follows c (data_segment s) current clock =
    same_state c (handle_option c s.option clock) _ (handle_option-Follows c s.option clock) refl
      refl
input_segment-Follows c (ack_segment s) current clock =
    let c1 = handle_option c s.option clock in
    let (w, rtt) = Sending.process_segment c1.sending_worker current s c1.round_trip.rto in
    let m = measured-same (record c1 { sending_worker = w }) rtt current in
    same_state c c1 _ (handle_option-Follows c s.option clock) m.0 m.1
input_segment-Follows c (cmd_segment s) current clock =
    let c1 = handle_option c s.option clock in
    let f = handle_option-Follows c s.option clock in
    elim (Bool-cases (s.cmd == command_terminate)) [
      | inl e ↦ rw e (
          same_state c (terminate_in c1.state c1 clock) _
            (Follows-trans c c1 _ f (terminate_in-Follows c1.state c1 clock refl)) refl refl)
      | inr e ↦ rw e (same_state c c1 _ f refl refl)
    ]

input_loop-Follows :
    (segs : List Segment) (c : Connection) (current : ℕ) (clock : State → ℕ)
    → Follows by_input c (input_loop segs c current clock)
unfolding input_loop
input_loop-Follows [] c current clock = Follows-refl c
input_loop-Follows (s ∷ segs) c current clock =
    elim (Bool-cases (conversation_of s == c.conversation)) [
      | inl e ↦ rw e (
          Follows-trans c (input_segment c s current clock) _
            (input_segment-Follows c s current clock)
            (input_loop-Follows segs (input_segment c s current clock) current clock))
      | inr e ↦ rw e (Follows-refl c)
    ]

pub input-Follows :
    (c : Connection) (segs : List Segment) (current : ℕ) (clock : State → ℕ)
    → Follows by_input c (input c segs current clock)
unfolding input
input-Follows c segs current clock =
    let c1 = record c { last_incoming_time = current } in
    let f = input_loop-Follows segs c1 current clock in
    record { reaches = f.reaches; counted = f.counted }

-- The close of a connection that hears nothing.
expired-Follows :
    (c : Connection) (clock : State → ℕ) → c.state ≡ active → Follows by_flush c (close c clock).0
unfolding close close_in
expired-Follows c clock a = by_state c.state refl a
  where
    by_state : (s : State) → c.state ≡ s → s ≡ active → Follows by_flush c (close_in s c clock).0
    by_state active e p = from_state c active ready_to_close (clock ready_to_close) e expires
    by_state peer_closed e p = absurd (cc p)
    by_state peer_terminating e p = absurd (cc p)
    by_state ready_to_close e p = absurd (cc p)
    by_state terminating e p = absurd (cc p)
    by_state terminated e p = absurd (cc p)

pub expire_in-Follows :
    (s : State) (c : Connection) (current : ℕ) (clock : State → ℕ)
    → c.state ≡ s
    → Follows by_flush c (expire_in s c current clock)
unfolding expire_in
expire_in-Follows active c current clock e =
    elim (Bool-cases (leb 30000 (sub_u32 current c.last_incoming_time))) [
      | inl t ↦ rw t (expired-Follows c clock e)
      | inr t ↦ rw t (Follows-refl c)
    ]
expire_in-Follows ready_to_close c current clock e = Follows-refl c
expire_in-Follows peer_closed c current clock e = Follows-refl c
expire_in-Follows terminating c current clock e = Follows-refl c
expire_in-Follows peer_terminating c current clock e = Follows-refl c
expire_in-Follows terminated c current clock e = Follows-refl c

pub drained_in-Follows :
    (s : State) (c : Connection) (clock : State → ℕ)
    → c.state ≡ s
    → Follows by_flush c (drained_in s c clock)
unfolding drained_in
drained_in-Follows ready_to_close c clock e =
    elim (Bool-cases (Sending.is_empty c.sending_worker)) [
      | inl t ↦ rw t (from_state c _ terminating _ e finishes)
      | inr t ↦ rw t (Follows-refl c)
    ]
drained_in-Follows active c clock e = Follows-refl c
drained_in-Follows peer_closed c clock e = Follows-refl c
drained_in-Follows terminating c clock e = Follows-refl c
drained_in-Follows peer_terminating c clock e = Follows-refl c
drained_in-Follows terminated c clock e = Follows-refl c

pub flush_terminating-Follows :
    (c : Connection) (current : ℕ) (clock : State → ℕ)
    → c.state ≡ terminating
    → Follows by_flush c (flush_terminating c current clock)
unfolding flush_terminating ping
flush_terminating-Follows c current clock e =
    elim (Bool-cases (ltb 8000 (sub_u32 current c.state_begin_time))) [
      | inl t ↦
          let f =
            from_state (ping c current command_terminate) _ terminated (clock terminated) e dies in
          rw t (record { reaches = f.reaches; counted = f.counted })
      | inr t ↦ rw t (same_state c c _ (Follows-refl c) refl refl)
    ]

pub timeout_in-Follows :
    (s : State) (c : Connection) (current : ℕ) (clock : State → ℕ)
    → c.state ≡ s
    → Follows by_flush c (timeout_in s c current clock)
unfolding timeout_in
timeout_in-Follows peer_terminating c current clock e =
    elim (Bool-cases (ltb 4000 (sub_u32 current c.state_begin_time))) [
      | inl t ↦ rw t (from_state c _ terminating _ e gives_up)
      | inr t ↦ rw t (Follows-refl c)
    ]
timeout_in-Follows ready_to_close c current clock e =
    elim (Bool-cases (ltb 15000 (sub_u32 current c.state_begin_time))) [
      | inl t ↦ rw t (from_state c _ terminating _ e finishes)
      | inr t ↦ rw t (Follows-refl c)
    ]
timeout_in-Follows active c current clock e = Follows-refl c
timeout_in-Follows peer_closed c current clock e = Follows-refl c
timeout_in-Follows terminating c current clock e = Follows-refl c
timeout_in-Follows terminated c current clock e = Follows-refl c
