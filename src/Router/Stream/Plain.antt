-- ===== src/Router/Stream/Plain.antt =====
-- server/baseconnect.go: Read and readData keep the rules of a stream, if the system's read does.
use netman.Common.{
  ℕ, ◌≤◌, ◌<◌, ◌≡◌, refl, false, Option, none, some, Bytes, [], ◌∷◌, ◌++◌, length, All, ◌==◌, arith,
  choose, prove_else,
}
use netman.Common.Endian.{IsByte}
use netman.Errors.{Error, is_eof}
use netman.Kernel.{Sys, ReadResult, got, read_failed}
use netman.Connect.{BaseConnect, read, after_read}
use netman.Connect.Tls.{Tls, read_data}
use netman.Connect.Socket.{SameSocket}
use netman.Router.Stream.{StreamLaws}

-- read(2) takes a front of what is to come, at most as long as the buffer, or fails and takes none.
abbrev pub Takes : {W : Type 0} → (W → Bytes) → ℕ → W → ReadResult × W → Type 0
Takes incoming size w (got bs, w') =
    (length bs ≤ size) × (incoming w ≡ bs ++ incoming w') × All IsByte bs
Takes incoming size w (read_failed e, w') = incoming w ≡ incoming w'

abbrev pub ReadLaws : {W : Type 0} → Sys W → (ℕ → W → Bytes) → Type 0
ReadLaws {W} sys incoming = (fd size : ℕ) (w : W) → Takes (incoming fd) size w (sys.read fd size w)

abbrev Result : Type 0 → Type 0
Result W = Bytes × Option Error × BaseConnect × W

-- The clauses of StreamLaws, for one result.
abbrev Follows :
    {W : Type 0}
    → (W → Bytes)
    → BaseConnect
    → ℕ
    → W
    → Bytes × Option Error × BaseConnect × W
    → Type 0
Follows incoming c size w (bs, e, c', w') =
    (length bs ≤ size)
    × (incoming w ≡ bs ++ incoming w')
    × All IsByte bs
    × (e ≡ none → 0 < length bs)
    × ((x : Error) → e ≡ some x → bs ≡ [])
    × SameSocket c c'

after_read-Follows :
    {W : Type 0} (incoming : W → Bytes) (c : BaseConnect) (size : ℕ) (r : ReadResult) (w w' : W)
    → Takes incoming size w (r, w')
    → let (bs, e, c') = after_read c r in Follows incoming c size w (bs, e, c', w')
unfolding after_read
after_read-Follows incoming c size (read_failed e) w w' t =
    (omega arith, t, tt, λ h. cc, λ x h. refl, (refl, refl))
after_read-Follows incoming c size (got []) w w' (le, t, b) =
    (omega arith, t, tt, λ h. cc, λ x h. refl, (ground arith, ground arith))
after_read-Follows incoming c size (got (x ∷ bs)) w w' (le, t, b) =
    prove_else
      (λ (o : Bytes × Option Error × BaseConnect). Follows incoming c size w (o.0, o.1, o.2, w'))
      (length (x ∷ bs) == 0) _ _ (ground arith)
      (le, t, b, λ h. omega arith, λ x h. cc, (ground arith, ground arith))

module _ {W : Type 0} (sys : Sys W) (incoming : ℕ → W → Bytes) (laws : ReadLaws sys incoming) where
  read-Follows :
      (c : BaseConnect) (size : ℕ) (w : W) → Follows (incoming c.fd) c size w (read sys c size w)
  unfolding read
  read-Follows c size w =
      let (r, w') = sys.read c.fd size w in
      after_read-Follows (incoming c.fd) c size r w w' (laws c.fd size w)

  -- A connection's own Read keeps the rules of a stream.
  pub read-StreamLaws : StreamLaws (read sys) incoming
  read-StreamLaws = record {
    fits = λ c size w. (read-Follows c size w).0;
    takes = λ c size w. (read-Follows c size w).1;
    are_bytes = λ c size w. (read-Follows c size w).2;
    some_bytes = λ c size w h e. (read-Follows c size w).3 e;
    failed_empty = λ c size w x e h. (read-Follows c size w).4 x e;
    keeps_socket = λ c size w. (read-Follows c size w).5;
  }

-- readData keeps them, if the connection's Read and the TLS layer over it do.
pub read_data-StreamLaws :
    {W : Type 0} (sys : Sys W) (tls : Tls W) (incoming : ℕ → W → Bytes)
    → StreamLaws (read sys) incoming
    → StreamLaws (tls.tls_read (read sys)) incoming
    → StreamLaws (read_data sys tls) incoming
unfolding read_data
read_data-StreamLaws {W} sys tls incoming p t = record {
  fits = λ c size w.
      choose (λ (r : Result W). length r.0 ≤ size) c.tls_enable (t.fits c size w) (p.fits c size w);
  takes = λ c size w.
      choose (λ (r : Result W). incoming c.fd w ≡ r.0 ++ incoming c.fd r.3) c.tls_enable
        (t.takes c size w) (p.takes c size w);
  are_bytes = λ c size w.
      choose (λ (r : Result W). All IsByte r.0) c.tls_enable (t.are_bytes c size w)
        (p.are_bytes c size w);
  some_bytes = λ c size w h.
      choose (λ (r : Result W). r.1 ≡ none → 0 < length r.0) c.tls_enable (t.some_bytes c size w h)
        (p.some_bytes c size w h);
  failed_empty = λ c size w x.
      choose (λ (r : Result W). r.1 ≡ some x → is_eof x ≡ false → r.0 ≡ []) c.tls_enable
        (t.failed_empty c size w x) (p.failed_empty c size w x);
  keeps_socket = λ c size w.
      choose (λ (r : Result W). SameSocket c r.2) c.tls_enable (t.keeps_socket c size w)
        (p.keeps_socket c size w);
}
