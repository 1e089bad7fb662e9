-- ===== src/Host.antt =====
-- iface: what a connection calls on the objects around it, which share the server's state: the
-- connection manager's Remove, the application's hooks and its websocket handler. The numbers are the
-- connection's descriptor for the manager and its id for the callbacks.
use netman.Common.{ℕ}

pub record Host (W : Type 0) : Type 0 where
  pub manager_remove : ℕ → W → W
  pub on_close : ℕ → W → W
  pub handler_open : ℕ → W → W
  pub handler_close : ℕ → W → W
