-- ===== src/Wait/Steps.antt =====
-- eventloop/epoll.go over server/router.go: what each part of an event's handling leaves of a served
-- connection.
use netman.Common.{ℕ, sym, ap, ◌∙◌, inl, inr, subst}
use netman.Connect.{BaseConnect}
use netman.Connect.Order.{IsQueued}
use netman.Connect.Socket.{SameSocket}
use netman.Router.{RouterProtocol}
use netman.Router.Stream.{IsIdle, IsValid}
use netman.Wait.Frame.{Keeps, forget_raw}
use netman.Wait.Served.{IsServed}

IsIdle-base : (b : BaseConnect) (c : RouterProtocol) → IsIdle c → IsIdle (record c { base = b })
IsIdle-base b c v = record { no_packet = v.no_packet; no_bytes = v.no_bytes }

IsValid-base : (b : BaseConnect) (c : RouterProtocol) → IsValid c → IsValid (record c { base = b })
IsValid-base b c (inl v) = inl (IsIdle-base b c v)
IsValid-base b c (inr (m, v)) = inr (
  m,
  record { at = v.at; wanted = v.wanted; u32_len = v.u32_len; u32_id = v.u32_id; short = v.short },
)

-- A new base under the same connection.
pub IsServed-base :
    (fd : ℕ) (c : RouterProtocol) (b : BaseConnect)
    → IsServed fd c
    → SameSocket c.base b
    → IsQueued b
    → IsServed fd (record c { base = b })
IsServed-base fd c b v (same_fd, same_udp) q = record {
  under = same_fd ∙ v.under;
  tcp = same_udp ∙ v.tcp;
  queued = q;
  valid = IsValid-base b c v.valid;
}

forget-IsQueued : (c : BaseConnect) → IsQueued c → IsQueued (forget_raw c)
forget-IsQueued c q = record { attached = q.attached; drained = q.drained }

unforget-IsQueued : (c : BaseConnect) → IsQueued (forget_raw c) → IsQueued c
unforget-IsQueued c q = record { attached = q.attached; drained = q.drained }

pub Keeps-IsQueued : (c c' : BaseConnect) → Keeps c c' → IsQueued c → IsQueued c'
Keeps-IsQueued c c' k q = unforget-IsQueued c' (subst IsQueued (sym k) (forget-IsQueued c q))

-- What DecodePacket leaves, wherever the connection is kept.
pub Keeps-IsServed :
    (fd : ℕ) (c c' : RouterProtocol)
    → IsServed fd c
    → Keeps c.base c'.base
    → IsValid c'
    → IsServed fd c'
Keeps-IsServed fd c c' v k valid = record {
  under = ap (λ b. b.fd) k ∙ v.under;
  tcp = ap (λ b. b.is_udp) k ∙ v.tcp;
  queued = Keeps-IsQueued c.base c'.base k v.queued;
  valid = valid;
}
