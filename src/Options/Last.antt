-- ===== src/Options/Last.antt =====
-- server/options.go: of several options for the same setting the last one counts.
use netman.Common.{
  ℕ, ◌≡◌, refl, ap, sym, ◌∙◌, Bool, true, Option, none, some, List, [], ◌∷◌, map, Bytes, ◌⊎◌, inl,
  inr,
}
use netman.Common.Int.{ℤ}
use netman.Errors.{Error, Result, ok, err}
use netman.Router.Layout.{Packer}
use netman.Options.{
  Options, Setter, no_options, with_num_event_loop, with_tcp_keep_alive, with_log_output,
  with_packer, with_hooks, with_max_body_length, with_heartbeat_check_interval,
  with_heartbeat_idle_time, with_tls, with_tls_config, with_udp_packet_buffer_length, apply_options,
  parse_option, keep_certificate,
}

-- The options as data.
pub data Setting (O : Type 0) : Type 0 where
  num_event_loop tcp_keep_alive heartbeat_check_interval heartbeat_idle_time : ℤ → Setting O
  log_output hooks tls_config : O → Setting O
  packer : Packer → Setting O
  max_body_length udp_packet_buffer_length : ℕ → Setting O
  tls : Bytes → Bytes → Setting O

module _ {O : Type 0} (load : Bytes → Bytes → Result O) where
  pub setter : Setting O → Setter O
  setter (num_event_loop n) = with_num_event_loop n
  setter (tcp_keep_alive n) = with_tcp_keep_alive n
  setter (heartbeat_check_interval n) = with_heartbeat_check_interval n
  setter (heartbeat_idle_time n) = with_heartbeat_idle_time n
  setter (log_output x) = with_log_output x
  setter (hooks x) = with_hooks x
  setter (tls_config x) = with_tls_config x
  setter (packer p) = with_packer p
  setter (max_body_length n) = with_max_body_length n
  setter (udp_packet_buffer_length n) = with_udp_packet_buffer_length n
  setter (tls cert_file key_file) = with_tls load cert_file key_file

-- The last value that a setting of the list gives, or what there was.
abbrev pub or_else {ℓ} : {A : Type ℓ} → Option A → A → A
or_else none old = old
or_else (some new) old = new

abbrev pub last {ℓ κ} : {S : Type ℓ} {A : Type κ} → (S → Option A) → List S → A → A
last pick [] old = old
last pick (s ∷ ss) old = last pick ss (or_else (pick s) old)

abbrev pub OneOf {ℓ} : {A : Type ℓ} → Option A → Type 0 → (A → Type 0) → Type 0
OneOf none P Q = P
OneOf (some a) P Q = Q a

-- What a setting says of one option.
module _ {O : Type 0} where
  abbrev pub pick_loop : Setting O → Option ℤ
  pick_loop (num_event_loop n) = some n
  pick_loop s = none

  abbrev pub pick_keep_alive : Setting O → Option ℤ
  pick_keep_alive (tcp_keep_alive n) = some n
  pick_keep_alive s = none

  abbrev pub pick_check_interval : Setting O → Option ℤ
  pick_check_interval (heartbeat_check_interval n) = some n
  pick_check_interval s = none

  abbrev pub pick_idle_time : Setting O → Option ℤ
  pick_idle_time (heartbeat_idle_time n) = some n
  pick_idle_time s = none

  abbrev pub pick_output : Setting O → Option (Option O)
  pick_output (log_output x) = some (some x)
  pick_output s = none

  abbrev pub pick_hooks : Setting O → Option (Option O)
  pick_hooks (hooks x) = some (some x)
  pick_hooks s = none

  abbrev pub pick_config : Setting O → Option (Option O)
  pick_config (tls_config x) = some (some x)
  pick_config s = none

  abbrev pub pick_packer : Setting O → Option (Option Packer)
  pick_packer (packer p) = some (some p)
  pick_packer s = none

  abbrev pub pick_max_length : Setting O → Option ℕ
  pick_max_length (max_body_length n) = some n
  pick_max_length s = none

  abbrev pub pick_buffer_length : Setting O → Option ℕ
  pick_buffer_length (udp_packet_buffer_length n) = some n
  pick_buffer_length s = none

  abbrev pub pick_enable : Setting O → Option Bool
  pick_enable (tls_config x) = some true
  pick_enable (tls cert_file key_file) = some true
  pick_enable s = none

module _ {O : Type 0} (load : Bytes → Bytes → Result O) where
  -- A certificate of the list cannot be loaded.
  abbrev pub Fails : List (Setting O) → Type 0
  Fails [] = ⊥
  Fails (tls cert_file key_file ∷ ss) = ((e : Error) × (load cert_file key_file ≡ err e)) ⊎ Fails ss
  Fails (s ∷ ss) = Fails ss

  -- A key pair that is loaded is kept.
  abbrev certificate_of : Result O → Option (Option O)
  certificate_of (ok certificate) = some (some certificate)
  certificate_of (err e) = none

  abbrev pub pick_certificate : Setting O → Option (Option O)
  pick_certificate (tls cert_file key_file) = certificate_of (load cert_file key_file)
  pick_certificate s = none

  -- No setting names these.
  abbrev pub Untouched : Options O → Options O → Type 0
  Untouched o o' =
      (o'.num_worker ≡ o.num_worker)
      × (o'.websocket_handler ≡ o.websocket_handler)
      × (o'.application ≡ o.application)

  abbrev pub SaysOthers : List (Setting O) → Options O → Options O → Type 0
  SaysOthers ss o o' =
      (o'.num_event_loop ≡ last pick_loop ss o.num_event_loop)
      × (o'.tcp_keep_alive ≡ last pick_keep_alive ss o.tcp_keep_alive)
      × (o'.heartbeat_check_interval ≡ last pick_check_interval ss o.heartbeat_check_interval)
      × (o'.heartbeat_idle_time ≡ last pick_idle_time ss o.heartbeat_idle_time)
      × (o'.log_output ≡ last pick_output ss o.log_output)
      × (o'.hooks ≡ last pick_hooks ss o.hooks)
      × (o'.tls_config ≡ last pick_config ss o.tls_config)
      × (o'.packer ≡ last pick_packer ss o.packer)
      × (o'.max_body_length ≡ last pick_max_length ss o.max_body_length)
      × (o'.udp_packet_buffer_length ≡ last pick_buffer_length ss o.udp_packet_buffer_length)
      × (o'.tls_enable ≡ last pick_enable ss o.tls_enable)

  abbrev pub Says : List (Setting O) → Options O → Options O → Type 0
  Says ss o o' =
      (o'.tls_certificate ≡ last pick_certificate ss o.tls_certificate)
      × (SaysOthers ss o o' × Untouched o o')

  then_tls :
      (cert_file key_file : Bytes) (ss : List (Setting O)) (o : Options O) (c : O)
      (r : Option (Options O))
      → load cert_file key_file ≡ ok c
      → OneOf r (Fails ss) (Says ss (record o { tls_certificate = some c; tls_enable = true }))
      → OneOf r (Fails (tls cert_file key_file ∷ ss)) (Says (tls cert_file key_file ∷ ss) o)
  then_tls cert_file key_file ss o c none h f = inr f
  then_tls cert_file key_file ss o c (some o') h (certificate, others) = (
    certificate
        ∙ ap (λ r. last pick_certificate ss (or_else (certificate_of r) o.tls_certificate)) (sym h),
    others,
  )

  tls-parsed :
      (cert_file key_file : Bytes) (ss : List (Setting O)) (o : Options O) (r : Result O)
      → load cert_file key_file ≡ r
      → ((o₁ : Options O) → OneOf (apply_options (map (setter load) ss) o₁) (Fails ss) (Says ss o₁))
      → OneOf
          (elim (keep_certificate o r) [
            | none ↦ none
            | some o₁ ↦ apply_options (map (setter load) ss) o₁
          ])
          (Fails (tls cert_file key_file ∷ ss))
          (Says (tls cert_file key_file ∷ ss) o)
  tls-parsed cert_file key_file ss o (err e) h later = inl (e, h)
  tls-parsed cert_file key_file ss o (ok c) h later =
      let o₁ : Options O = record o { tls_certificate = some c; tls_enable = true } in
      then_tls cert_file key_file ss o c (apply_options (map (setter load) ss) o₁) h (later o₁)

  apply_options-parsed :
      (ss : List (Setting O)) (o : Options O)
      → OneOf (apply_options (map (setter load) ss) o) (Fails ss) (Says ss o)
  unfolding apply_options setter with_num_event_loop with_tcp_keep_alive with_log_output with_packer
      with_hooks with_max_body_length with_heartbeat_check_interval with_heartbeat_idle_time
      with_tls with_tls_config with_udp_packet_buffer_length
  apply_options-parsed [] o = (
    refl,
    ((refl, refl, refl, refl, refl, refl, refl, refl, refl, refl, refl), (refl, refl, refl)),
  )
  apply_options-parsed (num_event_loop n ∷ ss) o = apply_options-parsed ss _
  apply_options-parsed (tcp_keep_alive n ∷ ss) o = apply_options-parsed ss _
  apply_options-parsed (heartbeat_check_interval n ∷ ss) o = apply_options-parsed ss _
  apply_options-parsed (heartbeat_idle_time n ∷ ss) o = apply_options-parsed ss _
  apply_options-parsed (log_output x ∷ ss) o = apply_options-parsed ss _
  apply_options-parsed (hooks x ∷ ss) o = apply_options-parsed ss _
  apply_options-parsed (tls_config x ∷ ss) o = apply_options-parsed ss _
  apply_options-parsed (packer p ∷ ss) o = apply_options-parsed ss _
  apply_options-parsed (max_body_length n ∷ ss) o = apply_options-parsed ss _
  apply_options-parsed (udp_packet_buffer_length n ∷ ss) o = apply_options-parsed ss _
  apply_options-parsed (tls cert_file key_file ∷ ss) o =
      tls-parsed cert_file key_file ss o (load cert_file key_file) refl (apply_options-parsed ss)

  -- parseOption panics only where a certificate of the options cannot be loaded. Otherwise every field
  -- of the options, the loaded certificate included, has the value of the last setting that names it,
  -- and Go's zero value where none does.
  pub parse_option-last :
      (ss : List (Setting O))
      → OneOf (parse_option (map (setter load) ss)) (Fails ss) (Says ss no_options)
  unfolding parse_option
  parse_option-last ss = apply_options-parsed ss no_options
