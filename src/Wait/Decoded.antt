-- ===== src/Wait/Decoded.antt =====
-- eventloop/epoll.go over server/router.go: what a poller does with DecodePacket's result.
use netman.Common.{
  ℕ, ◌≡◌, refl, sym, ap, subst, inl, inr, true, false, Bytes, ◌∙◌, leb, not, ◌&&◌, arith, choose,
}
use netman.Errors.{Error, Outcome, nothing, packet, fail, crash, stuck}
use netman.Kernel.{Sys}
use netman.Host.{Host}
use netman.Util.Message
use netman.Util.Message.{Message}
use netman.Util.DataPack.{DataPacker}
use netman.Connect.{set_last_message_time, set_handshake_completed}
use netman.Connect.Tls.{Tls}
use netman.Connect.Order.{IsQueued}
use netman.Manager.{ConnectManager}
use netman.Router.{RouterProtocol}
use netman.Router.Stream.{closes, Sound}
use netman.Wait.{
  Session, Reaction, hang_up, close_with, if_udp, reaction, react, after_decode, refresh, silently,
}
use netman.Wait.Frame.{Keeps}
use netman.Wait.Codes.{is_code, outcome_code}
use netman.Wait.Served.{
  IsServed, IsServing, Serves, sessions, close-Serves, refresh-IsServing, refresh-IsServingBut,
}
use netman.Wait.Steps.{IsServed-base, Keeps-IsServed, Keeps-IsQueued}

pub closes-hang_up : (e : Error) → closes e ≡ true → reaction e ≡ hang_up
unfolding reaction
closes-hang_up e h = ground arith

set_last_message_time-IsServed :
    (fd : ℕ) (c : RouterProtocol) (now : ℕ)
    → IsServed fd c
    → IsServed fd (record c { base = set_last_message_time c.base now })
unfolding set_last_message_time
set_last_message_time-IsServed fd c now v =
    IsServed-base fd c (set_last_message_time c.base now) v (refl, refl)
      (record { attached = v.queued.attached; drained = v.queued.drained })

pub set_handshake_completed-IsServed :
    (fd : ℕ) (c : RouterProtocol)
    → IsServed fd c
    → IsServed fd (record c { base = set_handshake_completed c.base })
unfolding set_handshake_completed
set_handshake_completed-IsServed fd c v =
    IsServed-base fd c (set_handshake_completed c.base) v (refl, refl)
      (record { attached = v.queued.attached; drained = v.queued.drained })

module _ {W : Type 0} (sys : Sys W) (tls : Tls W) (d : DataPacker) (udp_buffer : ℕ)
    (host : Host W) where
  abbrev ses : Session RouterProtocol W
  ses = sessions sys tls d udp_buffer host

  pub close_refreshed :
      (fd : ℕ) (c : RouterProtocol) (m : ConnectManager RouterProtocol) (w : W)
      → IsQueued c.base
      → c.fd ≡ fd
      → IsServing m
      → Serves (silently (ses.close c (refresh fd c m) w))
  close_refreshed fd c m w q at s =
      close-Serves sys tls d udp_buffer host fd c (refresh fd c m) w q at
        (refresh-IsServingBut fd c m s)

  react-Serves :
      (r : Reaction) (fd : ℕ) (c : RouterProtocol) (m : ConnectManager RouterProtocol) (w : W)
      → is_code r ≡ false
      → IsServed fd c
      → IsServing m
      → Serves (react sys ses r fd c (refresh fd c m) w)
  unfolding react
  react-Serves hang_up fd c m w h v s = close_refreshed fd c m w v.queued v.under s
  react-Serves (close_with n) fd c m w h v s = cc
  react-Serves if_udp fd c m w h v s =
      choose Serves c.is_udp (close_refreshed fd c m w v.queued v.under s)
        (refresh-IsServing fd c m v s)

  module _ (incoming : W → Bytes) (clock : W → ℕ) where
    pub after_decode-Serves :
        (fd : ℕ) (o : Outcome Message) (c c' : RouterProtocol) (m : ConnectManager RouterProtocol)
        (w w' : W)
        → IsServed fd c
        → Sound incoming c w (o, c', w')
        → Keeps c.base c'.base
        → outcome_code o ≡ false
        → IsServing m
        → Serves (after_decode sys ses clock fd o c' m w')
    unfolding after_decode react
    after_decode-Serves fd nothing c c' m w w' v sound k h s =
        refresh-IsServing fd c' m (Keeps-IsServed fd c c' v k sound.0) s
    after_decode-Serves fd (packet msg) c c' m w w' v sound k h s =
        let v' = Keeps-IsServed fd c c' v k (inl sound.0) in
        choose Serves (leb (Message.len msg) 0 && not (Message.is_websocket msg))
          (refresh-IsServing fd c' m v' s)
          (refresh-IsServing fd _ m (set_last_message_time-IsServed fd c' (clock w') v') s)
    after_decode-Serves fd (fail e) c c' m w w' v sound k h s = elim sound [
      | inl ends ↦
          subst (λ r. Serves (react sys ses r fd c' (refresh fd c' m) w'))
            (sym (closes-hang_up e ends))
            (close_refreshed fd c' m w' (Keeps-IsQueued c.base c'.base k v.queued)
              (ap (λ b. b.fd) k ∙ v.under) s)
      | inr (valid, _) ↦ react-Serves (reaction e) fd c' m w' h (Keeps-IsServed fd c c' v k valid) s
    ]
    after_decode-Serves fd crash c c' m w w' v sound k h s = sound
    after_decode-Serves fd stuck c c' m w w' v sound k h s = sound
