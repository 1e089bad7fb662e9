-- ===== src/Connect/Proceed.antt =====
-- server/baseconnect.go, ProceedWrite: what waits is sent on each writable event, in order, until
-- nothing is left and the connection is readable again.
use netman.Common.{
  ℕ, ◌≡◌, refl, sym, ap, ap₂, ◌∙◌, Option, none, some, [], ◌∷◌, ◌++◌, Bytes, take, drop, arith, inl,
  inr, subst, Bool-cases, take-append-drop, append_assoc, zero, suc,
}
use netman.Errors.{Errno, Error}
use netman.Kernel.{Sys, WriteResult, wrote, write_failed, Call, returns, ctl_mod, in_pri}
use netman.Epoll.{Poller}
use netman.Util.Queue.{pop}
use netman.Connect.{
  BaseConnect, is_out, get_write_buff, proceed_read, proceed_send, proceed_write, sync_readable,
  keep_unsent,
}
use netman.Connect.Socket.{get_write_buff-SameSocket}
use netman.Connect.Order.{Accepts, WriteLaws, concat, pending, IsQueued, pending-get_write_buff}

drop-append-nil : (n : ℕ) (d q : Bytes) → d ++ q ≡ [] → drop n d ++ q ≡ []
drop-append-nil zero d q h = h
drop-append-nil (suc n) [] q h = h
drop-append-nil (suc n) (x ∷ d) q h = cc

pub get_write_buff_frame :
    (c : BaseConnect)
    → ((get_write_buff c).2.poller ≡ c.poller) × ((get_write_buff c).2.state ≡ c.state)
unfolding get_write_buff pop
get_write_buff_frame c = ground arith

-- A writable event sends the front of what waits, and loses nothing whether it fails or not.
abbrev pub Keeps :
    {W : Type 0}
    → (ℕ → W → Bytes)
    → BaseConnect
    → W
    → Call (Option Error) × BaseConnect × W
    → Type 0
Keeps sent c w (r, c', w') =
    (sent c.fd w' ++ pending c' ≡ sent c.fd w ++ pending c)
    × IsQueued c'
    × ((e : _) × (r ≡ returns e))

sync_readable-IsQueued :
    (c : BaseConnect) (r : Option Errno)
    → IsQueued c
    → pending c ≡ []
    → (pending (sync_readable c r).1 ≡ pending c) × IsQueued (sync_readable c r).1
unfolding sync_readable
sync_readable-IsQueued c (some e) v empty = (refl, v)
sync_readable-IsQueued c none v empty =
    (refl, record { attached = v.attached; drained = λ _. empty })

keep_unsent-IsQueued :
    (c : BaseConnect) (r : WriteResult) → IsQueued c → IsQueued (keep_unsent c c.write_buff r).1
unfolding keep_unsent
keep_unsent-IsQueued c (write_failed e) v = v
keep_unsent-IsQueued c (wrote n) v = record {
  attached = v.attached;
  drained = λ h. drop-append-nil n c.write_buff _ (v.drained h);
}

module _ {W : Type 0} (sys : Sys W) (sent : ℕ → W → Bytes) (laws : WriteLaws sys sent) where
  keep_unsent-stream :
      (c : BaseConnect) (r : WriteResult) (w w' : W)
      → Accepts (sent c.fd) c.write_buff w (r, w')
      → sent c.fd w' ++ pending (keep_unsent c c.write_buff r).1 ≡ sent c.fd w ++ pending c
  unfolding keep_unsent
  keep_unsent-stream c (write_failed e) w w' took = ap (λ s. s ++ pending c) took
  keep_unsent-stream c (wrote n) w w' took = ground (
    arith,
    take-append-drop n c.write_buff,
    append_assoc (sent c.fd w) (take n c.write_buff)
        (drop n c.write_buff ++ concat c.write_q.inner),
    append_assoc (take n c.write_buff) (drop n c.write_buff) (concat c.write_q.inner),
  )

  proceed_read-Keeps :
      (c : BaseConnect) (p : Poller) (w : W)
      → IsQueued c
      → pending c ≡ []
      → Keeps sent c w (proceed_read sys c p w)
  unfolding proceed_read
  proceed_read-Keeps c p w v empty =
      let (r, w') = sys.epoll_ctl p.epfd (ctl_mod in_pri c.id) c.fd w in
      let (same, v') = sync_readable-IsQueued c r v empty in
      (ap₂ (λ a b. a ++ b) (laws.epoll_keeps c.fd p.epfd _ c.fd w) same, v', (_, refl))

  proceed_send-Keeps :
      (c : BaseConnect) (w : W) → IsQueued c → Keeps sent c w (proceed_send sys c c.write_buff w)
  unfolding proceed_send
  proceed_send-Keeps c w v =
      let (r, w') = sys.write c.fd c.write_buff w in
      (
        keep_unsent-stream c r w w' (laws.write_accepts c.fd c.write_buff w),
        keep_unsent-IsQueued c r v,
        (_, refl),
      )

  Keeps-from :
      (c c₁ : BaseConnect) (w : W) (r : Call (Option Error) × BaseConnect × W)
      → c₁.fd ≡ c.fd
      → pending c₁ ≡ pending c
      → Keeps sent c₁ w r
      → Keeps sent c w r
  Keeps-from c c₁ w (r, c', w') fd same (stream, v, back) = (
    subst (λ k. sent k w' ++ pending c' ≡ sent k w ++ pending c) fd
        (stream ∙ ap (◌++◌ (sent c₁.fd w)) same),
    v,
    back,
  )

  -- ProceedWrite on a connection that belongs to a poller, and that waits for a writable socket if it
  -- has bytes left: on every branch, errors included, it returns, the socket's stream with what waits
  -- behind it is as before, and the connection stays such.
  pub proceed_write-Keeps :
      (c : BaseConnect) (w : W) → IsQueued c → Keeps sent c w (proceed_write sys c w)
  unfolding proceed_write
  proceed_write-Keeps c w v =
      let (same, buff, none_left) = pending-get_write_buff c in
      let (at, state) = get_write_buff_frame c in
      let (fd, _) = get_write_buff-SameSocket c in
      let c₁ = (get_write_buff c).2 in
      let v₁ : IsQueued c₁ = record {
        attached = (v.attached.0, at ∙ v.attached.1);
        drained = λ h. same ∙ v.drained (sym (ap is_out state) ∙ h);
      } in
      elim (Bool-cases (get_write_buff c).1) [
        | inl empty ↦
            rw (empty, v₁.attached.1)
              (Keeps-from c c₁ w _ fd same
                (proceed_read-Keeps c₁ v.attached.0 w v₁ (same ∙ none_left empty)))
        | inr more ↦ rw (more, ← buff) (Keeps-from c c₁ w _ fd same (proceed_send-Keeps c₁ w v₁))
      ]
