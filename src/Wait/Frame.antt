-- ===== src/Wait/Frame.antt =====
-- server/router.go: DecodePacket changes nothing of the connection's base but the count of raw bytes.
use netman.Common.{ℕ, zero, suc, ◌≡◌, refl, ◌∙◌, Option, none, some, Bytes, ◌==◌, arith, choose}
use netman.Common.Int.{pos}
use netman.Errors.{Error, Result, ok, err, Outcome, Flow, exit, go_on}
use netman.Kernel.{Sys, ReadResult, got, read_failed}
use netman.Util.Message.{Message}
use netman.Connect.{BaseConnect, read, after_read}
use netman.Connect.Tls.{Tls, Reader, read_data}
use netman.Router.{
  RouterProtocol, begin, after_head, after_body, finish_round, complete, keep_read, decode_head,
  decode_body, then_body, decode_round, decode_packet, receive_from_udp, read_size,
}
use netman.Router.Layout.{Packer}

-- All but the count.
abbrev pub forget_raw : BaseConnect → BaseConnect
forget_raw c = record c { tls_raw_size = pos 0 }

abbrev pub Keeps : BaseConnect → BaseConnect → Type 0
Keeps c c' = forget_raw c' ≡ forget_raw c

abbrev pub ReadKeeps : {W : Type 0} → Reader W → Type 0
ReadKeeps {W} rd = (c : BaseConnect) (size : ℕ) (w : W) → Keeps c (rd c size w).2

after_read-Keeps : (c : BaseConnect) (r : ReadResult) → Keeps c (after_read c r).2
unfolding after_read
after_read-Keeps c (read_failed e) = refl
after_read-Keeps c (got bs) = ground arith

complete-Keeps : (c : RouterProtocol) (m : Option Message) → Keeps c.base (complete c m).1.base
unfolding complete
complete-Keeps c none = refl
complete-Keeps c (some m) = refl

begin-Keeps :
    (p : Packer) (c : RouterProtocol) (m : Result Message) → Keeps c.base (begin p c m).1.base
unfolding begin
begin-Keeps p c (err e) = refl
begin-Keeps p c (ok m) = ground arith

finish_round-Keeps : (c : RouterProtocol) → Keeps c.base (finish_round c).1.base
unfolding finish_round
finish_round-Keeps c = ground (arith, complete-Keeps c c.temporary_message)

keep_read-Keeps : (c : RouterProtocol) (bs : Bytes) → Keeps c.base (keep_read c bs).base
unfolding keep_read
keep_read-Keeps c bs = refl

after_body-Keeps :
    (c : RouterProtocol) (bs : Bytes) (e : Option Error) → Keeps c.base (after_body c bs e).1.base
unfolding after_body
after_body-Keeps c bs none = finish_round-Keeps (keep_read c bs) ∙ keep_read-Keeps c bs
after_body-Keeps c bs (some e) = ground arith

after_head-Keeps :
    (p : Packer) (c : RouterProtocol) (bs : Bytes) (e : Option Error)
    → Keeps c.base (after_head p c bs e).1.base
unfolding after_head
after_head-Keeps p c bs none = ground (arith, begin-Keeps p c (p.unpack bs))
after_head-Keeps p c bs (some e) = ground arith

module _ {W : Type 0} (sys : Sys W) where
  pub read-Keeps : ReadKeeps (read sys)
  unfolding read
  read-Keeps c size w = after_read-Keeps c (sys.read c.fd size w).0

  pub read_data-Keeps :
      (tls : Tls W) → ReadKeeps (tls.tls_read (read sys)) → ReadKeeps (read_data sys tls)
  unfolding read_data
  read_data-Keeps tls t c size w =
      choose (λ (r : Bytes × Option Error × BaseConnect × W). Keeps c r.2) c.tls_enable (t c size w)
        (read-Keeps c size w)

module _ {W : Type 0} (sys : Sys W) (tls : Tls W) (p : Packer) (udp_buffer : ℕ)
    (keeps : ReadKeeps (read_data sys tls)) where
  decode_head-Keeps :
      (c : RouterProtocol) (w : W) → Keeps c.base (decode_head sys tls p udp_buffer c w).1.base
  unfolding decode_head
  decode_head-Keeps c w =
      let (bs, e, base', w') = read_data sys tls c.base p.header_length w in
      choose (λ (r : Flow Message × RouterProtocol × W). Keeps c.base r.1.base)
        (c.pack_data_length == 0)
        (after_head-Keeps p (record c { base = base' }) bs e ∙ keeps c.base p.header_length w) refl

  decode_body-Keeps :
      (c : RouterProtocol) (w : W) → Keeps c.base (decode_body sys tls p udp_buffer c w).1.base
  unfolding decode_body
  decode_body-Keeps c w =
      let size = read_size c in
      let (bs, e, base', w') = read_data sys tls c.base size w in
      after_body-Keeps (record c { base = base' }) bs e ∙ keeps c.base size w

  then_body-Keeps :
      (flow : Flow Message) (c : RouterProtocol) (w : W)
      → Keeps c.base (then_body sys tls p udp_buffer flow c w).1.base
  unfolding then_body
  then_body-Keeps (exit o) c w = refl
  then_body-Keeps go_on c w = decode_body-Keeps c w

  decode_round-Keeps :
      (c : RouterProtocol) (w : W) → Keeps c.base (decode_round sys tls p udp_buffer c w).1.base
  unfolding decode_round
  decode_round-Keeps c w = then_body-Keeps _ _ _ ∙ decode_head-Keeps c w

  then_round-Keeps :
      (fuel : ℕ) (c : BaseConnect) (r : Flow Message × RouterProtocol × W)
      → Keeps c r.1.base
      → ((c' : RouterProtocol) (w : W)
          → Keeps c'.base (decode_packet sys tls p udp_buffer fuel c' w).1.base)
      → Keeps c
          (elim r.0 as (λ x. Outcome Message × RouterProtocol × W) [
            | exit o ↦ (o, r.1, r.2)
            | go_on ↦ decode_packet sys tls p udp_buffer fuel r.1 r.2
          ]).1.base
  then_round-Keeps fuel c (exit o, c', w') k later = k
  then_round-Keeps fuel c (go_on, c', w') k later = later c' w' ∙ k

  pub decode_packet-Keeps :
      (fuel : ℕ) (c : RouterProtocol) (w : W)
      → Keeps c.base (decode_packet sys tls p udp_buffer fuel c w).1.base
  unfolding decode_packet receive_from_udp
  decode_packet-Keeps zero c w = refl
  decode_packet-Keeps (suc fuel) c w =
      let round = decode_round sys tls p udp_buffer c w in
      choose (λ (r : Outcome Message × RouterProtocol × W). Keeps c.base r.1.base) c.is_udp refl
        (then_round-Keeps fuel c.base round (decode_round-Keeps c w) (decode_packet-Keeps fuel))
