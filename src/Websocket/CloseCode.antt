-- ===== src/Websocket/CloseCode.antt =====
-- server/websocket_ctrl.go, verifyCloseCode.
use netman.Common.{Bool-cases, ℕ, ◌≡◌, ◌⊎◌, inl, inr, ◌≤◌, none, some, arith, leb, ◌&&◌}
use netman.Errors.{websocket_protocol_error}
use netman.Websocket.Control.{is_reserved, verify_close_code}

-- The codes of RFC 6455, 7.4, that an endpoint may send, with those registered since and those left to
-- libraries and applications.
abbrev pub MaySend : ℕ → Type 0
MaySend code =
    (1000 ≤ code × code ≤ 1003) ⊎ ((1007 ≤ code × code ≤ 1014) ⊎ (3000 ≤ code × code ≤ 4999))

-- verifyCloseCode gives no error for a code that an endpoint may send, and the error of a broken
-- protocol for every other number, and there is no third case.
pub verify_close_code_lem :
    (code : ℕ)
    → (MaySend code × (verify_close_code code ≡ none))
      ⊎ (¬ MaySend code × (verify_close_code code ≡ some websocket_protocol_error))
unfolding verify_close_code is_reserved
verify_close_code_lem code = elim (Bool-cases (leb 1000 code && leb code 1003)) [
  | inl low ↦ inl (inl (ground arith), ground arith)
  | inr not_low ↦ elim (Bool-cases (leb 1007 code && leb code 1014)) [
    | inl middle ↦ inl (inr (inl (ground arith)), ground arith)
    | inr not_middle ↦ elim (Bool-cases (leb 3000 code && leb code 4999)) [
      | inl high ↦ inl (inr (inr (ground arith)), ground arith)
      | inr not_high ↦ inr (λ ok. ground arith, ground arith)
    ]
  ]
]
