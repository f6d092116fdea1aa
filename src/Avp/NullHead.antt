-- ===== src/Avp/NullHead.antt =====
-- The handlers write through `t->call_head`, which is NULL while a tunnel has no call.
use xl2tpd.Base.{
  ℕ, suc, ◌+◌, ◌-◌, drop, ◌≡◌, ◌≢◌, ◌≤◌, Option, arith, true, false, List, [], ◌++◌, some, be16,
  pos, ==_refl,
}
use xl2tpd.Message.{scccn, icrq}
use xl2tpd.Session.{Session, Env, cur, put_cur}
use xl2tpd.Avp.Raw.{Reply, fault, einval}
use xl2tpd.Avp.MessageType.{message_type_avp}
use xl2tpd.Avp.CallAvps.{assigned_call_avp}
use xl2tpd.Avp.Loop.{avp_round, avp_loop, handle_avps}

-- An AVP of eight bytes with no flag set and no vendor, in network order.
abbrev pub plain_avp : ℕ → ℕ → List ℕ
plain_avp attr value = be16 8 ++ (be16 0 ++ (be16 attr ++ be16 value))

-- An ICRQ that the state machine refuses leaves the type recorded and the list empty.
refused_icrq :
    (env : Env) (s : Session) (rest : List ℕ)
    → s.tunnel.sanity ≡ true
    → s.tunnel.state ≢ scccn
    → message_type_avp env s (record { length_word = 8; body = be16 icrq ++ rest }) 8
      ≡ einval (put_cur s (record (cur s) { msgtype = pos icrq }))
unfolding message_type_avp
refused_icrq env s rest sane state = ground arith

-- `assigned_call_avp` on such a state reads through NULL.
assigned_call_faults :
    (s : Session) (id : ℕ) (rest : List ℕ)
    → s.tunnel.sanity ≡ true
    → s.tunnel.call_head ≡ []
    → (cur s).msgtype ≡ pos icrq
    → assigned_call_avp s (record { length_word = 8; body = be16 id ++ rest }) 8 ≡ fault
unfolding assigned_call_avp
assigned_call_faults s id rest sane empty icrq = ground arith

module _ (env : Env) (len : ℕ) (s : Session) (more : List ℕ) (fits : 8 ≤ len) where
  refused_round :
      (k : Session → ℕ → Option Reply)
      → s.tunnel.sanity ≡ true
      → s.tunnel.state ≢ scccn
      → avp_round env true len s (plain_avp 0 icrq ++ more) k
        ≡ k (put_cur s (record (cur s) { msgtype = pos icrq })) 8
  unfolding avp_round message_type_avp
  refused_round k sane state = ground arith

  fault_round :
      (id : ℕ) (k : Session → ℕ → Option Reply)
      → s.tunnel.sanity ≡ true
      → s.tunnel.call_head ≡ []
      → (cur s).msgtype ≡ pos icrq
      → avp_round env false len s (plain_avp 14 id ++ more) k ≡ some fault
  unfolding avp_round assigned_call_avp
  fault_round id k sane empty icrq = ground arith

-- Where a tunnel has no call and is not connected, a control message that begins with an ICRQ
-- message type and an Assigned Call ID, both without the mandatory bit, makes `handle_avps` read
-- and write through NULL, whatever the identifier and whatever follows. The refusal of the ICRQ
-- is passed over, since its AVP is not mandatory, but `c->msgtype` stays ICRQ.
pub refused_icrq_faults :
    (env : Env) (fuel : ℕ) (s : Session) (id more_size : ℕ) (more : List ℕ)
    → s.tunnel.sanity ≡ true
    → s.tunnel.state ≢ scccn
    → s.tunnel.call_head ≡ []
    → handle_avps env
        (suc (suc fuel))
        s
        (28 + more_size)
        (plain_avp 0 icrq ++ (plain_avp 14 id ++ more))
      ≡ some fault
unfolding handle_avps avp_loop
refused_icrq_faults env fuel s id more_size more sane state empty =
    let s' = put_cur s (record (cur s) { msgtype = pos icrq }) in
    let len = 28 + more_size - 12 in
    ground (
      arith,
      refused_round env len s (plain_avp 14 id ++ more) (omega arith)
          (λ s' n.
            avp_loop env (suc fuel) false (len - n) s'
              (drop n (plain_avp 0 icrq ++ (plain_avp 14 id ++ more))))
          sane state,
      fault_round env (len - 8) s' more (omega arith) id
          (λ s' n. avp_loop env fuel false (len - 8 - n) s' (drop n (plain_avp 14 id ++ more))) sane
          empty (rw ==_refl),
    )
