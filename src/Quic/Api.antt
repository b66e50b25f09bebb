-- ===== src/Quic/Api.antt =====
-- The library MsQuic as the code calls it, and its reference count, src/msquic_api.cpp. A call
-- takes and gives the library's state; `none` and `false` stand for a failed status. The mutex
-- makes `acquire` and `release` one step each; the count is an int that is never negative.
pub mod Count
use secure_tunnel_cpp.Prelude.{
  ℕ, zero, suc, ◌+◌, ◌-◌, ◌*◌, ◌/◌, ◌%◌, ◌^◌, ◌≤◌, ◌<◌, min, max, bit_and, ◌≡◌, refl, sym, ap, ◌∙◌,
  subst, ◌≢◌, ◌↔◌, ◌⊎◌, inl, inr, Bool, true, false, ◌&&◌, ◌||◌, not, Option, none, some, List, [],
  ◌∷◌, ◌++◌, map, append-nil, append_assoc, arith, ltb, leb, ◌==◌, if◌then◌else◌, ltb→lt, lt→ltb,
  leb→le, ltb→le, le→ltb, ==_iff, ==_refl, Bool-cases, Option-cases, length, get_or, take, drop,
  length-append, length-take, length-drop, take-append, drop-append, take_all, take-append_drop,
  take_prefix, drop_prefix, drop-drop, All, All-append, All-take, All-drop, Bytes, IsByte, codes,
  is_empty, text_eq, text_eq_sound, text_eq_refl,
}
use secure_tunnel_cpp.Config.{QuicTransportConfig, Role}

-- What `ConfigurationLoadCredential` is given.
pub data Credentials : Type 0 where
  no_credentials : Credentials
  client_credentials : Bool → Credentials
  hash_store : Bytes → Credentials
  certificate_file : Bytes → Bytes → Credentials

pub record MsQuic : Type 1 where
  pub State : Type 0
  pub open2 : State → State × Bool
  pub close : State → State
  pub registration_open : State → State × Option ℕ
  pub registration_close : State → ℕ → State
  pub configuration_open : State → ℕ → Role → QuicTransportConfig → State × Option ℕ
  pub configuration_load_credential : State → ℕ → Credentials → State × Bool
  pub configuration_close : State → ℕ → State
  pub connection_open : State → ℕ → State × Option ℕ
  pub connection_start : State → ℕ → ℕ → Bytes → ℕ → State × Bool
  pub connection_set_configuration : State → ℕ → ℕ → State × Bool
  pub connection_shutdown : State → ℕ → State
  pub connection_close : State → ℕ → State
  pub listener_open : State → ℕ → State × Option ℕ
  pub listener_start : State → ℕ → Bytes → ℕ → State × Bool
  pub listener_close : State → ℕ → State
  pub stream_open : State → ℕ → State × Option ℕ
  pub stream_start : State → ℕ → State × Bool
  pub stream_send : State → ℕ → Bytes → State × Bool
  pub stream_close : State → ℕ → State
  pub set_callback_handler : State → ℕ → State

module _ (q : MsQuic) where
  -- The library's state and the two globals; `api` says whether the table is there.
  pub record MsQuicApi : Type 0 where
    pub library : q.State
    pub api : Bool
    pub ref_count : ℕ

  unfoldable pub acquire : MsQuicApi → MsQuicApi × Bool
  acquire g =
      if not g.api
      then (let (l, opened) = q.open2 g.library in
          if not opened
          then (record g { library = l }, false)
          else (record { library = l; api = true; ref_count = g.ref_count + 1 }, true))
      else (record g { ref_count = g.ref_count + 1 }, true)

  unfoldable pub release : MsQuicApi → MsQuicApi
  release g =
      if leb g.ref_count 0
      then g
      else if g.ref_count - 1 == 0 && g.api
      then record { library = q.close g.library; api = false; ref_count = 0 }
      else record g { ref_count = g.ref_count - 1 }
