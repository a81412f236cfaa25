-- ===== src/Schema.antt =====
-- The enumerations of the database schema (prisma/schema.prisma) and the exceptions that the
-- services raise, one constructor for each message (apps/api/src).
use fuel_chain.Base.{ℕ, Bool, true, false, ◌==◌}

pub data ActorRole : Type 0 where
  admin importer transporter depot_operator lab auditor station_staff verifier citizen : ActorRole

abbrev pub role_number : ActorRole → ℕ
role_number admin = 0
role_number importer = 1
role_number transporter = 2
role_number depot_operator = 3
role_number lab = 4
role_number auditor = 5
role_number station_staff = 6
role_number verifier = 7
role_number citizen = 8

abbrev pub same_role : ActorRole → ActorRole → Bool
same_role a b = role_number a == role_number b

pub data DeliveryStatus : Type 0 where
  loaded in_transit delivered cancelled : DeliveryStatus

-- `status: { in: ['LOADED', 'IN_TRANSIT'] }`
abbrev pub is_open : DeliveryStatus → Bool
is_open loaded = true
is_open in_transit = true
is_open _ = false

pub data CisternStatus : Type 0 where
  available loaded in_transit offline : CisternStatus

pub data BatonStatus : Type 0 where
  active consumed expired revoked : BatonStatus

abbrev pub is_active : BatonStatus → Bool
is_active active = true
is_active _ = false

pub data SyncStatus : Type 0 where
  pending applied rejected : SyncStatus

pub data SettlementStatus : Type 0 where
  pending paid cancelled : SettlementStatus

-- `TankAvailability`, and the `UNKNOWN` of a station that was never measured
pub data Availability : Type 0 where
  full medium low empty unknown : Availability

-- One constructor for each message that an exception carries.
pub data Exception : Type 0 where
  -- BadRequestException
  transition_refused not_issuable volume_not_positive station_code_missing no_liters_left :
      Exception
  cistern_missing cistern_of_other_driver trip_open load_not_positive cistern_full : Exception
  cistern_negative received_not_positive tank_full withdraw_not_positive insufficient_stock :
      Exception
  no_depot_tank role_refused token_required bad_signature baton_expired other_station : Exception
  not_destined_here destination_mismatch reception_refused quality_missing : Exception
  not_delivered no_settlement_access settlement_of_other_station : Exception
  no_active_trip not_for_this_station no_station contract_refused : Exception
  -- NotFoundException
  batch_not_found station_not_found baton_not_found settlement_not_found row_not_found : Exception
  -- ConflictException
  baton_not_active : BatonStatus → Exception
  baton_already_consumed batch_code_taken client_event_taken : Exception
  -- ServiceUnavailableException
  secret_missing : Exception
  -- UnauthorizedException, ForbiddenException
  login_required role_forbidden no_cistern cistern_not_yours bad_token session_expired : Exception
  -- a unique index of the database refuses the row (P2002), or a foreign key does (P2003)
  unique_violation foreign_key_violation : Exception

-- `e instanceof ConflictException`
abbrev pub is_conflict : Exception → Bool
is_conflict (baton_not_active s) = true
is_conflict baton_already_consumed = true
is_conflict batch_code_taken = true
is_conflict client_event_taken = true
is_conflict _ = false
