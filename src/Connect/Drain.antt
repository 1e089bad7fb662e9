-- ===== src/Connect/Drain.antt =====
-- server/baseconnect.go: runs of calls of Write and of writable events, and that the queue empties.
use netman.Common.{
  ℕ, zero, suc, ◌+◌, ◌≤◌, ◌<◌, ◌≡◌, refl, sym, ap, subst, ◌∙◌, true, false, none, List, [], ◌∷◌,
  ◌++◌, Bytes, length, drop, arith, ◌⊎◌, inl, inr, Bool-cases, append_assoc, append-nil,
  length-zero, length-drop, length-append,
}
use netman.Kernel.{Sys, wrote, ctl_mod, in_pri}
use netman.Epoll.{Poller}
use netman.Util.Queue.{pop}
use netman.Connect.{
  BaseConnect, is_out, get_write_buff, proceed_read, proceed_send, proceed_write, write,
  sync_readable, keep_unsent,
}
use netman.Connect.Socket.{write-SameSocket, proceed_write-SameSocket}
use netman.Connect.Order.{
  WriteLaws, concat, pending, IsQueued, accepted, pending-get_write_buff, write-Extends,
}
use netman.Connect.Proceed.{proceed_write-Keeps, get_write_buff_frame}

-- What happens to a connection: the application writes, or the socket becomes writable.
pub data Action : Type 0 where
  submit : Bytes → Action
  writable : Action

module _ {W : Type 0} (sys : Sys W) where
  -- The bytes that the calls of Write took, with the connection and the world that are left.
  pub run : List Action → BaseConnect → W → Bytes × BaseConnect × W
  run [] c w = ([], c, w)
  run (submit bs ∷ as') c w =
      let (r, c₁, w₁) = write sys c bs w in
      let (rest, c₂, w₂) = run as' c₁ w₁ in (accepted r bs ++ rest, c₂, w₂)
  run (writable ∷ as') c w = let (_, c₁, w₁) = proceed_write sys c w in run as' c₁ w₁

  -- Writable events come while the connection is registered for them.
  pub drain : ℕ → BaseConnect → W → BaseConnect × W
  drain zero c w = (c, w)
  drain (suc n) c w = elim (is_out c.state) [
    | true ↦ drain n (proceed_write sys c w).1 (proceed_write sys c w).2
    | false ↦ (c, w)
  ]

module _ {W : Type 0} (sys : Sys W) (sent : ℕ → W → Bytes) (laws : WriteLaws sys sent) where
  same_stream :
      (c c₁ : BaseConnect) (w₁ : W) (r : Bytes × BaseConnect × W)
      → c₁.fd ≡ c.fd
      → sent c₁.fd r.2 ++ pending r.1 ≡ (sent c₁.fd w₁ ++ pending c₁) ++ r.0
      → sent c.fd r.2 ++ pending r.1 ≡ (sent c.fd w₁ ++ pending c₁) ++ r.0
  same_stream c c₁ w₁ r fd =
      subst (λ k. sent k r.2 ++ pending r.1 ≡ (sent k w₁ ++ pending c₁) ++ r.0) fd

  -- After any run from a connection that belongs to a poller, and that waits for a writable socket if
  -- it has bytes left, the socket's stream with what waits behind it is that at the start and then the
  -- bytes that the calls of Write took, in the order of the calls, and the connection is still such.
  pub run_in_order :
      (xs : List Action) (c : BaseConnect) (w : W)
      → IsQueued c
      → let (taken, c', w') = run sys xs c w in
        (sent c.fd w' ++ pending c' ≡ (sent c.fd w ++ pending c) ++ taken) × IsQueued c'
  unfolding run
  run_in_order [] c w v = (sym (append-nil _), v)
  run_in_order (submit bs ∷ xs) c w v =
      let (r, c₁, w₁) = write sys c bs w in
      let (step, v₁) = write-Extends sys sent laws c bs w v in
      let (rest, v₂) = run_in_order xs c₁ w₁ v₁ in
      (
        same_stream c c₁ w₁ (run sys xs c₁ w₁) (write-SameSocket sys c bs w).0 rest
            ∙ ap (λ s. s ++ (run sys xs c₁ w₁).0) step
            ∙ append_assoc (sent c.fd w ++ pending c) (accepted r bs) (run sys xs c₁ w₁).0,
        v₂,
      )
  run_in_order (writable ∷ xs) c w v =
      let (r, c₁, w₁) = proceed_write sys c w in
      let (step, v₁, _) = proceed_write-Keeps sys sent laws c w v in
      let (rest, v₂) = run_in_order xs c₁ w₁ v₁ in
      (
        same_stream c c₁ w₁ (run sys xs c₁ w₁) (proceed_write-SameSocket sys c w).0 rest
            ∙ ap (λ s. s ++ (run sys xs c₁ w₁).0) step,
        v₂,
      )

-- A socket that stays writable: it takes a byte at least of what is not empty, and the poller's
-- registration succeeds.
pub record StaysWritable {W : Type 0} (sys : Sys W) : Type 0 where
  pub takes_some :
      (fd : ℕ) (bs : Bytes) (w : W)
      → (n : ℕ) × ((sys.write fd bs w).0 ≡ wrote n) × (0 < length bs → 0 < n)
  pub registers : (p : ℕ) (k : _) (fd : ℕ) (w : W) → (sys.epoll_ctl p k fd w).0 ≡ none

-- The bytes that wait, and the packets that wait behind the buffer.
abbrev pub backlog : BaseConnect → ℕ
backlog c = length (pending c) + length c.write_q.inner

get_write_buff-backlog :
    (c : BaseConnect)
    → let (bs, empty, c₁) = get_write_buff c in
      empty ≡ false → ((0 < length bs) × (backlog c₁ ≤ backlog c)) ⊎ (backlog c₁ < backlog c)
unfolding get_write_buff pop
get_write_buff-backlog c = ground (arith, length-zero c.write_buff)

keep_unsent-backlog :
    (c : BaseConnect) (n : ℕ)
    → (backlog (keep_unsent c c.write_buff (wrote n)).1 ≤ backlog c)
      × (0 < length c.write_buff
          → 0 < n
          → backlog (keep_unsent c c.write_buff (wrote n)).1 < backlog c)
unfolding keep_unsent
keep_unsent-backlog c n =
    let d = drop n c.write_buff in
    let q = concat c.write_q.inner in
    (
      omega (arith, length-append c.write_buff q, length-append d q, length-drop n c.write_buff),
      λ h k.
          omega
            (arith, length-append c.write_buff q, length-append d q, length-drop n c.write_buff),
    )

module _ {W : Type 0} (sys : Sys W) (ready : StaysWritable sys) where
  proceed_read-state :
      (c : BaseConnect) (p : Poller) (w : W) → is_out (proceed_read sys c p w).1.state ≡ false
  unfolding proceed_read sync_readable
  proceed_read-state c p w = rw (ready.registers p.epfd (ctl_mod in_pri c.id) c.fd w, sync_readable)

  proceed_send-backlog :
      (c : BaseConnect) (w : W)
      → (backlog (proceed_send sys c c.write_buff w).1 ≤ backlog c)
        × (0 < length c.write_buff → backlog (proceed_send sys c c.write_buff w).1 < backlog c)
  unfolding proceed_send
  proceed_send-backlog c w =
      let (n, wrote_n, some_n) = ready.takes_some c.fd c.write_buff w in
      let (le, lt) = keep_unsent-backlog c n in rw wrote_n (le, λ h. lt h (some_n h))

  proceed_write-backlog :
      (c : BaseConnect) (w : W)
      → IsQueued c
      → (is_out (proceed_write sys c w).1.state ≡ false)
        ⊎ (backlog (proceed_write sys c w).1 < backlog c)
  unfolding proceed_write
  proceed_write-backlog c w v =
      let (same, buff, none_left) = pending-get_write_buff c in
      let (at, state) = get_write_buff_frame c in
      let c₁ = (get_write_buff c).2 in
      elim (Bool-cases (get_write_buff c).1) [
        | inl empty ↦ rw (empty, at ∙ v.attached.1) (inl (proceed_read-state c₁ v.attached.0 w))
        | inr more ↦
            rw (more, ← buff)
              (inr (elim (get_write_buff-backlog c more) [
                | inl (some_left, le) ↦
                    omega (arith, (proceed_send-backlog c₁ w).1 (rw buff some_left))
                | inr lt ↦ omega (arith, (proceed_send-backlog c₁ w).0)
              ]))
      ]

module _ {W : Type 0} (sys : Sys W) (sent : ℕ → W → Bytes) (laws : WriteLaws sys sent)
    (ready : StaysWritable sys) where
  drain_idle : (n : ℕ) (c : BaseConnect) (w : W) → is_out c.state ≡ false → drain sys n c w ≡ (c, w)
  unfolding drain
  drain_idle zero c w h = refl
  drain_idle (suc n) c w h = rw (h, drain)

  -- On a socket that stays writable, and from a connection that belongs to a poller and waits for a
  -- writable socket if it has bytes left, more writable events than there are waiting bytes and
  -- packets send all that waits, in order, and leave nothing waiting and the connection no longer
  -- waiting for a writable socket.
  pub drain_sends_all :
      (n : ℕ) (c : BaseConnect) (w : W)
      → IsQueued c
      → backlog c < n
      → let (c', w') = drain sys n c w in
        (is_out c'.state ≡ false) × (pending c' ≡ []) × (sent c.fd w' ≡ sent c.fd w ++ pending c)
  unfolding drain
  drain_sends_all zero c w v h = absurd (omega arith)
  drain_sends_all (suc n) c w v h = elim (Bool-cases (is_out c.state)) [
    | inl queueing ↦
        let (r, c₁, w₁) = proceed_write sys c w in
        let (same, v₁, _) = proceed_write-Keeps sys sent laws c w v in
        rw (queueing, drain)
          (elim (proceed_write-backlog sys ready c w v) [
            | inl idle ↦ rw (drain_idle n c₁ w₁ idle) (
              idle,
              v₁.drained idle,
              sym (append-nil _) ∙ sym (ap (◌++◌ (sent c.fd w₁)) (v₁.drained idle)) ∙ same,
            )
            | inr lt ↦
                let (idle, none_left, all) = drain_sends_all n c₁ w₁ v₁ (omega arith) in
                let (_, w') = drain sys n c₁ w₁ in
                (
                  idle,
                  none_left,
                  subst (λ k. sent k w' ≡ sent k w₁ ++ pending c₁)
                        (proceed_write-SameSocket sys c w).0 all
                      ∙ same,
                )
          ])
    | inr idle ↦
        rw (drain_idle (suc n) c w idle)
          (idle, v.drained idle, rw (v.drained idle) (sym (append-nil _)))
  ]
