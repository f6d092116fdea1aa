-- ===== src/Control.antt =====
-- control.c: the header of a control message, and the check of a received one.
--
-- `ControlHdr` is `struct control_hdr` in host order, as `fix_hdr` leaves it. Of what is sent, a
-- zero-length message (ZLB) is its header. `handle_control` takes what `handle_avps` and
-- `control_finish` do together as an argument.
pub mod Serial
pub mod Check
pub mod Stream
mod Examples
use xl2tpd.Base.{
  ℕ, ◌+◌, ◌-◌, ◌/◌, ◌%◌, ◌^◌, Bool, true, false, not, ◌&&◌, ◌||◌, if◌then◌else◌, ltb, leb,
}
use xl2tpd.Base.{◌==◌, List, [], ◌∷◌, ◌++◌, none, ℤ, pos, negsuc, u16, sub_ℕ, minus_one}
use xl2tpd.Message.{control_hdr_size}
use xl2tpd.Session.{Session, Tunnel, Call, cur, put_cur}

pub record ControlHdr : Type 0 where
  pub ver : ℕ
  pub length : ℕ
  pub tid : ℕ
  pub cid : ℕ
  pub ns : ℕ
  pub nr : ℕ

-- An `int` put into a `_u16`.
abbrev pub to_u16 : ℤ → ℕ
to_u16 (pos n) = u16 n
to_u16 (negsuc n) = 65_535 - n % 2 ^ 16

-- `i > n`
abbrev pub is_above : ℤ → ℕ → Bool
is_above (pos m) n = ltb n m
is_above (negsuc m) n = false

-- `i < n`
abbrev pub is_below : ℤ → ℕ → Bool
is_below (pos m) n = ltb m n
is_below (negsuc m) n = true

-- `t == -1`
abbrev pub is_minus_one : ℤ → Bool
is_minus_one (pos n) = false
is_minus_one (negsuc n) = n == 0

-- TBIT, LBIT, FBIT and version 2.
abbrev pub control_ver : ℕ
control_ver = 0xc802

-- `add_control_hdr` in front of `len` bytes.
unfoldable pub add_control_hdr : Session → ℕ → ControlHdr × Session
add_control_hdr s len = (
  record {
    ver = control_ver;
    length = u16 (len + control_hdr_size);
    tid = to_u16 s.tunnel.tid;
    cid = to_u16 (cur s).cid;
    ns = s.tunnel.control_seq_num;
    nr = s.tunnel.control_rec_seq_num;
  },
  record s { tunnel = record (s.tunnel) { control_seq_num = u16 (s.tunnel.control_seq_num + 1) } },
)

-- `control_zlb`: a header alone, which takes no sequence number.
unfoldable pub control_zlb : Session → ControlHdr × Session
unfolding add_control_hdr
control_zlb s =
    let (h, s') = add_control_hdr s 0 in
    (
      h,
      record s' {
        tunnel = record (s'.tunnel) { control_seq_num = u16 (s'.tunnel.control_seq_num + 65_535) };
      },
    )

-- The test that `check_control` makes of an unexpected number: both `_u16` are promoted to `int`.
unfoldable pub is_old : ℕ → ℕ → Bool
is_old ns expected =
    ltb ns expected && is_below (sub_ℕ expected ns) 32_768
    || ltb expected ns && is_above (sub_ℕ expected ns) 32_768

-- What a check gives: whether the packet is valid, the new state, and what was sent.
pub record Checked : Type 0 where
  pub valid : Bool
  pub session : Session
  pub sent : List ControlHdr

-- CTBIT, CLBIT, CFBIT and CVER
abbrev pub ctbit : ℕ → Bool
ctbit ver = not (ver / 32_768 % 2 == 0)

abbrev pub clbit : ℕ → Bool
clbit ver = not (ver / 16_384 % 2 == 0)

abbrev pub cfbit : ℕ → Bool
cfbit ver = not (ver / 2048 % 2 == 0)

abbrev pub cver : ℕ → ℕ
cver ver = ver % 8

-- The checks of the version word under SANITY.
abbrev pub good_ver : ℕ → Bool
good_ver ver = ctbit ver && clbit ver && cfbit ver && (cver ver == 2)

-- The branch for a number that is not the expected one.
unfoldable pub unexpected : Session → ControlHdr → ℕ → Checked
unfolding is_old control_zlb
unexpected s h len =
    if is_old h.ns s.tunnel.control_rec_seq_num
    then (if len == control_hdr_size
        then record { valid = false; session = s; sent = [] }
        else (let (zlb, s') = control_zlb s in
            record { valid = false; session = s'; sent = zlb ∷ [] }))
    else (if s.tunnel.control_rec_seq_num == 0 && is_minus_one s.tunnel.tid
        then record {
          valid = false;
          session = put_cur s (record (cur s) { needclose = false; closing = true });
          sent = [];
        }
        else record { valid = false; session = s; sent = [] })

unfoldable pub check_control : Session → ControlHdr → ℕ → Checked
unfolding unexpected
check_control s h len =
    if ltb len control_hdr_size
    then record { valid = false; session = s; sent = [] }
    else (if not (len == h.length)
        then record { valid = false; session = s; sent = [] }
        else (if not (h.ns == s.tunnel.control_rec_seq_num) then unexpected s h len else record {
          valid = not (s.tunnel.sanity && not (good_ver h.ver));
          session =
              put_cur
                (record s {
                  tunnel = record (s.tunnel) {
                    control_rec_seq_num = u16 (s.tunnel.control_rec_seq_num + 1);
                    clr = h.nr;
                  };
                })
                (record (cur s) { cnu = true });
          sent = [];
        }))

-- What `handle_control` gives. A result but 0 is `failed`.
pub record Handled : Type 0 where
  pub failed : Bool
  pub session : Session
  pub sent : List ControlHdr

-- The end of `handle_control` for a ZLB: it takes no number of the peer's, and one that
-- acknowledges the closing message lets the call be closed for good.
unfoldable pub handle_zlb : Session → Session
handle_zlb s =
    let c = cur s in
    put_cur
      (record s {
        tunnel = record (s.tunnel) {
          control_rec_seq_num = u16 (s.tunnel.control_rec_seq_num + 65_535);
        };
      })
      (record c {
        msgtype = minus_one;
        cnu = false;
        needclose =
            if c.needclose && c.closing && leb c.close_ss s.tunnel.clr then false else c.needclose;
      })

-- `c->container->chal_us.vector = NULL`
abbrev pub clear_vector : Session → Session
clear_vector s = record s {
  tunnel = record (s.tunnel) { chal_us = record (s.tunnel.chal_us) { vector = none } };
}

module _ (process : Session → Bool × Session × List ControlHdr) where
  unfoldable pub handle_control : Session → ControlHdr → ℕ → Handled
  handle_control s h len =
      let k = check_control s h len in
      if not k.valid
      then record { failed = true; session = k.session; sent = k.sent }
      else (if len == control_hdr_size
          then record { failed = false; session = handle_zlb k.session; sent = k.sent }
          else (let (bad, s', out) =
                process (put_cur k.session (record (cur k.session) { msgtype = minus_one })) in
              record { failed = bad; session = s'; sent = k.sent ++ out }))

  -- What `network_thread` does with a control packet for a known call: the vector is cleared, and
  -- a ZLB follows where nothing else has acknowledged the packet.
  unfoldable pub receive_control : Session → ControlHdr → ℕ → Handled
  receive_control s h len =
      let k = handle_control (clear_vector s) h len in
      if (cur k.session).cnu
      then (let (zlb, s') = control_zlb k.session in
          record {
            failed = k.failed;
            session = put_cur s' (record (cur s') { cnu = false });
            sent = k.sent ++ (zlb ∷ []);
          })
      else k

-- `handle_special`, for a control packet on a call that the tunnel does not have; `s.current` is
-- the tunnel's own call. The result is true where the buffer was used up.
unfoldable pub handle_special : Session → ControlHdr → ℕ → ℕ → Bool × Session × List ControlHdr
unfolding check_control control_zlb
handle_special s h len call =
    if not (ctbit h.ver)
    then (false, s, [])
    else (let s1 = put_cur s (record (cur s) { cid = pos call }) in
        let k = check_control s1 h len in
        let reset = λ (x : Session). put_cur x (record (cur x) { cid = pos 0 }) in
        if k.valid
        then (if len == control_hdr_size
            then (false, reset k.session, k.sent)
            else (let (zlb, s2) = control_zlb k.session in (true, reset s2, k.sent ++ (zlb ∷ []))))
        else (false, reset k.session, k.sent))
