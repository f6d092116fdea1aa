-- ===== src/Daemon/Order.antt =====
-- What a sequence of packets delivers, through the whole of the processing.
use mathlib.Core.Path.{subst}
use xl2tpd.Base.{ℕ, suc, ◌+◌, ◌<◌, ◌≡◌, ◌⊎◌, inl, inr, refl, ◌∙◌, arith, Bool, true, false, not}
use xl2tpd.Base.{◌&&◌, if◌then◌else◌, ◌==◌, List, [], ◌∷◌, Option, none, some, u16, minus_one}
use xl2tpd.Base.{Bool-cases}
use xl2tpd.Message.{control_hdr_size}
use xl2tpd.Session.{cur, put_cur}
use xl2tpd.Avp.Raw.{Reply, fault, ok, einval}
use xl2tpd.Avp.Loop.{handle_avps}
use xl2tpd.Avp.Link.Loop.{SameMaybe, handle_avps-SameMaybe}
use xl2tpd.Control.{Checked, check_control, good_ver}
use xl2tpd.Control.Stream.{IsRun, check_rec, zlb_rec}
use xl2tpd.World.{Config, World, Result, done, AnyWorld, put_session}
use xl2tpd.Finish.{control_finish}
use xl2tpd.Finish.Core.{AnyWorld-map}
use xl2tpd.Finish.Diagram.{control_finish-Keeps}
use xl2tpd.Daemon.{Packet, finish, process, after_check, handle_message, acknowledge}
use xl2tpd.Daemon.{receive, arrived, send_headers}
use xl2tpd.Daemon.Login.{acknowledged-SameCore}

-- The expected number.
abbrev expected : World → ℕ
expected w = w.session.tunnel.control_rec_seq_num

-- The number after a result, if it has a state.
abbrev Expects : ℕ → Result → Type 0
Expects n r = AnyWorld (λ w. expected w ≡ n) r

finish-Expects :
    (cfg : Config) (w : World) (o : Option Reply)
    → SameMaybe w.session o
    → Expects (expected w) (finish cfg w o)
unfolding finish
finish-Expects cfg w none same = tt
finish-Expects cfg w (some fault) same = tt
finish-Expects cfg w (some (einval s)) same = same.control_rec_seq_num
finish-Expects cfg w (some (ok s)) same =
    AnyWorld-map (λ w' k. k.0 ∙ same.control_rec_seq_num) (control_finish cfg (put_session w s))
      (control_finish-Keeps cfg (put_session w s))

process-Expects : (cfg : Config) (w : World) (p : Packet) → Expects (expected w) (process cfg w p)
unfolding process
process-Expects cfg w p =
    finish-Expects cfg w (handle_avps cfg.env (suc p.size) w.session p.size p.body)
      (handle_avps-SameMaybe cfg.env (suc p.size) w.session p.size p.body)

acknowledge-Expects : (n : ℕ) (r : Result) → Expects n r → Expects n (acknowledge r)
unfolding acknowledge
acknowledge-Expects n Result.fault h = tt
acknowledge-Expects n (done bad w) h = (acknowledged-SameCore w).rec_seq ∙ h

-- Whether the message in a packet is processed.
abbrev pub is_processed : World → Packet → Bool
is_processed w p =
    (check_control (arrived w p).session p.header p.size).valid && not (p.size == control_hdr_size)

-- Where a result moves the expected number.
abbrev Moves : Bool → ℕ → ℕ → Result → Type 0
Moves processed ns n r =
    ((processed ≡ true) × (ns ≡ n) × Expects (u16 (n + 1)) r) ⊎ ((processed ≡ false) × Expects n r)

after_check-Moves :
    (cfg : Config) (w : World) (p : Packet) (k : Checked) (n : ℕ)
    → n < 65_536
    → ((k.valid ≡ true) × (p.header.ns ≡ n) × (k.session.tunnel.control_rec_seq_num ≡ u16 (n + 1)))
      ⊎ ((k.valid ≡ false) × (k.session.tunnel.control_rec_seq_num ≡ n))
    → Moves (k.valid && not (p.size == control_hdr_size)) p.header.ns n (after_check cfg w p k)
unfolding after_check
after_check-Moves cfg w p k n small (inr (v, e)) = rw v (inr (refl, e))
after_check-Moves cfg w p k n small (inl (v, ns, e)) =
    elim (Bool-cases (p.size == control_hdr_size)) [
      | inl z ↦ rw (v, z) (inr (refl, ground (arith, zlb_rec k.session, e, small)))
      | inr z ↦
          let w1 = send_headers (put_session w k.session) k.sent in
          let w2 =
            put_session w1 (put_cur k.session (record (cur k.session) { msgtype = minus_one })) in
          rw (v, z)
            (inl (
              refl,
              ns,
              AnyWorld-map (λ w' same. same ∙ e) (process cfg w2 p) (process-Expects cfg w2 p),
            ))
    ]

receive-Moves :
    (cfg : Config) (w : World) (p : Packet)
    → good_ver p.header.ver ≡ true
    → expected w < 65_536
    → Moves (is_processed w p) p.header.ns (expected w) (receive cfg w p)
unfolding receive handle_message
receive-Moves cfg w p good small =
    let w1 = arrived w p in
    let k = check_control w1.session p.header p.size in
    let r = after_check cfg w1 p k in
    elim (after_check-Moves cfg w1 p k (expected w) small
      (check_rec w1.session p.header p.size good)) [
        | inl (a, b, c) ↦ inl (a, b, acknowledge-Expects (u16 (expected w + 1)) r c)
        | inr (a, c) ↦ inr (a, acknowledge-Expects (expected w) r c)
      ]

-- The numbers of the messages that are processed, in the order of their processing.
abbrev pub rest_of : Result → (World → List ℕ) → List ℕ
rest_of Result.fault k = []
rest_of (done bad w) k = k w

unfoldable pub numbers : Config → World → List Packet → List ℕ
numbers cfg w [] = []
numbers cfg w (p ∷ ps) =
    let rest = rest_of (receive cfg w p) (λ w1. numbers cfg w1 ps) in
    if is_processed w p then p.header.ns ∷ rest else rest

abbrev pub AllGood : List Packet → Type 0
AllGood [] = Unit
AllGood (p ∷ ps) = (good_ver p.header.ver ≡ true) × AllGood ps

rest-IsRun :
    (k : World → List ℕ) (n : ℕ) (r : Result)
    → n < 65_536
    → ((w1 : World) → expected w1 < 65_536 → IsRun (expected w1) (k w1))
    → Expects n r
    → IsRun n (rest_of r k)
rest-IsRun k n Result.fault below later h = tt
rest-IsRun k n (done bad w1) below later h =
    subst (λ (m : ℕ). IsRun m (k w1)) h (later w1 (omega (arith, h)))

-- Whatever control packets come to a tunnel for calls of it that are known, in any order and however
-- often, and whatever their messages do, as long as no version word is bad: those that are processed
-- carry the numbers from the expected one on, each exactly once and in order, modulo 65536. Packets
-- for calls that `get_call` does not find go to `handle_special` and are not among them.
pub numbers-IsRun :
    (cfg : Config) (w : World) (ps : List Packet)
    → w.session.tunnel.control_rec_seq_num < 65_536
    → AllGood ps
    → IsRun w.session.tunnel.control_rec_seq_num (numbers cfg w ps)
unfolding numbers
numbers-IsRun cfg w [] small good = tt
numbers-IsRun cfg w (p ∷ ps) small (good, more) =
    let k = λ (w1 : World). numbers cfg w1 ps in
    let later = λ (w1 : World) (below : expected w1 < 65_536). numbers-IsRun cfg w1 ps below more in
    elim (receive-Moves cfg w p good small) [
      | inl (e, ns, h) ↦
          rw e (ns, rest-IsRun k (u16 (expected w + 1)) (receive cfg w p) (omega arith) later h)
      | inr (e, h) ↦ rw e (rest-IsRun k (expected w) (receive cfg w p) small later h)
    ]
