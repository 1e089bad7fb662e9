-- ===== src/Options.antt =====
-- server/options.go: the options of a server. `O` is the type of the application's objects, of which
-- the options keep references.
pub mod Last
use netman.Common.{ℕ, Bool, true, false, Option, none, some, List, [], ◌∷◌, Bytes}
use netman.Common.Int.{ℤ, pos}
use netman.Errors.{Result, ok, err}
use netman.Dispatch.{Application, router_mode}
use netman.Router.Layout.{Packer}

-- A time.Duration is a number of nanoseconds. NumWorker has no setter.
pub record Options (O : Type 0) : Type 0 where
  pub num_event_loop : ℤ
  pub num_worker : ℤ
  pub log_output : Option O
  pub packer : Option Packer
  pub tcp_keep_alive : ℤ
  pub hooks : Option O
  pub max_body_length : ℕ
  pub heartbeat_check_interval : ℤ
  pub heartbeat_idle_time : ℤ
  pub tls_certificate : Option O
  pub tls_enable : Bool
  pub tls_config : Option O
  pub websocket_handler : Option O
  pub application : Application
  pub udp_packet_buffer_length : ℕ

-- An option changes the options; `none` is a panic.
abbrev pub Setter : Type 0 → Type 0
Setter O = Options O → Option (Options O)

module _ {O : Type 0} where
  -- Go's zero values.
  abbrev pub no_options : Options O
  no_options = record {
    num_event_loop = pos 0;
    num_worker = pos 0;
    log_output = none;
    packer = none;
    tcp_keep_alive = pos 0;
    hooks = none;
    max_body_length = 0;
    heartbeat_check_interval = pos 0;
    heartbeat_idle_time = pos 0;
    tls_certificate = none;
    tls_enable = false;
    tls_config = none;
    websocket_handler = none;
    application = router_mode;
    udp_packet_buffer_length = 0;
  }

  unfoldable pub with_num_event_loop : ℤ → Setter O
  with_num_event_loop n o = some (record o { num_event_loop = n })

  unfoldable pub with_tcp_keep_alive : ℤ → Setter O
  with_tcp_keep_alive duration o = some (record o { tcp_keep_alive = duration })

  unfoldable pub with_log_output : O → Setter O
  with_log_output output o = some (record o { log_output = some output })

  unfoldable pub with_packer : Packer → Setter O
  with_packer p o = some (record o { packer = some p })

  unfoldable pub with_hooks : O → Setter O
  with_hooks h o = some (record o { hooks = some h })

  unfoldable pub with_max_body_length : ℕ → Setter O
  with_max_body_length n o = some (record o { max_body_length = n })

  unfoldable pub with_heartbeat_check_interval : ℤ → Setter O
  with_heartbeat_check_interval interval o = some (record o { heartbeat_check_interval = interval })

  unfoldable pub with_heartbeat_idle_time : ℤ → Setter O
  with_heartbeat_idle_time idle_time o = some (record o { heartbeat_idle_time = idle_time })

  abbrev pub keep_certificate : Options O → Result O → Option (Options O)
  keep_certificate o (err e) = none
  keep_certificate o (ok certificate) =
      some (record o { tls_certificate = some certificate; tls_enable = true })

  -- WithTls; `load` is tls.LoadX509KeyPair.
  unfoldable pub with_tls : (Bytes → Bytes → Result O) → Bytes → Bytes → Setter O
  with_tls load cert_file key_file o = keep_certificate o (load cert_file key_file)

  unfoldable pub with_tls_config : O → Setter O
  with_tls_config config o = some (record o { tls_config = some config; tls_enable = true })

  unfoldable pub with_udp_packet_buffer_length : ℕ → Setter O
  with_udp_packet_buffer_length n o = some (record o { udp_packet_buffer_length = n })

  -- The loop of parseOption.
  unfoldable pub apply_options : List (Setter O) → Options O → Option (Options O)
  apply_options [] o = some o
  apply_options (opt ∷ opts) o = elim (opt o) [ none ↦ none | some o' ↦ apply_options opts o' ]

  unfoldable pub parse_option : List (Setter O) → Option (Options O)
  parse_option opts = apply_options opts no_options
