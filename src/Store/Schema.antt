-- ===== src/Store/Schema.antt =====
-- The tables (services/core/internal/store/models.go), with the columns that the modelled
-- operations read or write. A uuid is its text; a timestamp is a `Time`.
use wantmytime.Prelude.{ℕ, Option, String, List, Bool}
use wantmytime.Prelude.Int64.{ℤ}
use wantmytime.Prelude.Time.{Time, Date}

pub record LedgerAccount : Type 0 where
  pub id : String
  pub account_code : String
  pub currency : String
  pub scope_id : Option String

pub record LedgerEntry : Type 0 where
  pub id : String
  pub journal_id : String
  pub account_id : String
  pub side : String
  pub amount_minor : ℤ

pub record LedgerJournal : Type 0 where
  pub id : String
  pub source_type : String
  pub source_id : String
  pub currency : String
  pub description : String
  pub request_digest : List ℕ

-- The states that the check constraint of the table `refunds` allows.
pub data RefundState : Type 0 where
  pending_approval queued submitted processed failed not_required : RefundState

pub record Refund : Type 0 where
  pub id : String
  pub booking_id : Option String
  pub payment_attempt_id : Option String
  pub amount_minor : ℤ
  pub currency : String
  pub platform_share_minor : ℤ
  pub seller_share_minor : ℤ
  pub reason : String
  pub state : RefundState
  pub provider_refund_id : Option String
  pub attempts : ℤ
  pub next_attempt_at : Time
  pub last_error : Option String
  pub requested_by : Option String
  pub approved_by : Option String
  pub note : Option String
  pub submitted_at : Option Time
  pub processed_at : Option Time
  pub seller_liability : String
  pub payment_exception_id : Option String

pub record SellerRecovery : Type 0 where
  pub id : String
  pub seller_id : String
  pub refund_id : String
  pub amount_minor : ℤ
  pub recovered_minor : ℤ
  pub currency : String

pub record Booking : Type 0 where
  pub id : String
  pub seller_id : String
  pub buyer_user_id : String
  pub duration_minutes : ℤ
  pub starts_at : Time
  pub created_at : Time
  pub gross_minor : ℤ
  pub currency : String
  pub state : String
  pub payment_state : String
  pub cancelled_at : Option Time
  pub cancelled_by_role : Option String
  pub cancellation_reason : Option String
  pub quote_id : Option String
  pub buyer_name : String
  pub guest_email : String
  pub issue_reason : Option String
  pub issue_resolved_at : Option Time
  pub issue_reported_by : Option String

pub record SellerProfile : Type 0 where
  pub id : String
  pub user_id : String
  pub handle : String
  pub timezone : String
  pub minimum_notice_minutes : ℕ
  pub booking_horizon_days : ℕ
  pub buffer_minutes : ℕ
  pub paused : Bool
  pub readiness_state : String
  pub publication_state : String
  pub country : String

pub record PaymentAllocation : Type 0 where
  pub id : String
  pub booking_id : String
  pub deduction_minor : ℤ
  pub gross_minor : ℤ
  pub seller_entitlement_minor : ℤ
  pub processor_cost_minor : ℤ
  pub fee_basis_points : ℤ

pub record PaymentAttempt : Type 0 where
  pub id : String
  pub booking_id : Option String
  pub quote_id : Option String
  pub merchant_reference : String
  pub canonical_state : String
  pub buyer_fee_minor : ℤ
  pub provider : String
  pub environment : String
  pub expected_minor : ℤ
  pub currency : String
  pub approved_fee_minor : Option ℤ
  pub fee_basis_points : Option ℤ
  pub provider_transaction_id : Option String
  pub channel : Option String
  pub paid_minor : Option ℤ
  pub card_country : Option String

-- The states that the check constraint of the table `seller_payouts` allows. An `account_sealed` that
-- is NULL is the empty list, as Go scans it.
pub data PayoutState : Type 0 where
  scheduled processing paid payout_failed cancelled : PayoutState

pub record SellerPayout : Type 0 where
  pub id : String
  pub booking_id : String
  pub seller_id : String
  pub entitlement_minor : ℤ
  pub amount_minor : Option ℤ
  pub recovery_minor : ℤ
  pub fee_minor : ℤ
  pub currency : String
  pub state : PayoutState
  pub reference : String
  pub provider_transfer_code : Option String
  pub generation : ℤ
  pub provider : String
  pub funds_available_at : Time
  pub bank_code : Option String
  pub account_sealed : List ℕ
  pub account_name : Option String
  pub account_last4 : Option String
  pub bank_name : Option String
  pub destination_type : String
  pub attempts : ℤ
  pub next_attempt_at : Time
  pub last_error : Option String
  pub released_at : Option Time
  pub paid_at : Option Time
  pub updated_at : Time

pub record SlotReservation : Type 0 where
  pub booking_id : Option String
  pub active : Bool
  pub seller_id : String
  pub occupied_from : Time
  pub occupied_to : Time
  pub reservation_kind : String
  pub quote_id : Option String
  pub expires_at : Option Time

pub record RescheduleRequest : Type 0 where
  pub booking_id : String
  pub state : String
  pub version : ℤ

pub record BookingCancellationRequest : Type 0 where
  pub booking_id : String
  pub state : String
  pub resolution : Option String
  pub resolved_at : Option Time

pub record NotificationOutbox : Type 0 where
  pub event_key : String
  pub booking_id : Option String
  pub recipient_user_id : String
  pub kind : String
  pub due_at : Time
  pub state : String
  pub claimed_at : Option Time
  pub last_error_code : Option String
  pub reference_id : Option String
  pub payment_exception_id : Option String

pub record CalendarConnection : Type 0 where
  pub seller_id : String
  pub status : String
  pub add_events : Bool
  pub create_meet_links : Bool

pub record CalendarJob : Type 0 where
  pub booking_id : String
  pub state : String
  pub due_at : Time

pub record Quote : Type 0 where
  pub id : String
  pub buyer_user_id : String
  pub seller_id : String
  pub buyer_name : String
  pub duration_minutes : ℤ
  pub starts_at : Time
  pub expires_at : Time
  pub state : String
  pub offer_id : Option String
  pub gross_minor : ℤ
  pub currency : String

pub record PaymentException : Type 0 where
  pub id : String
  pub state : String
  pub resolution : Option String
  pub resolved_at : Option Time
  pub payment_attempt_id : Option String
  pub kind : String
  pub provider_case_reference : String
  pub amount_minor : ℤ
  pub currency : String
  pub reason : String

pub record SettlementItem : Type 0 where
  pub allocation_id : String
  pub state : String
  pub provider_reference : String

pub record AuditEvent : Type 0 where
  pub actor_id : Option String
  pub action : String
  pub target_id : Option String
  pub reason : Option String

pub record AvailabilityWindow : Type 0 where
  pub seller_id : String
  pub weekday : ℕ
  pub local_start : String
  pub local_end : String
  pub timezone : String

pub record AvailabilityOverride : Type 0 where
  pub seller_id : String
  pub local_date : Date
  pub closed : Bool
  pub replacement_windows : Option (List (String × String))

pub record CalendarBusyBlock : Type 0 where
  pub seller_id : String
  pub busy_from : Time
  pub busy_to : Time

pub record Offer : Type 0 where
  pub id : String
  pub state : String
  pub converted_booking_id : Option String

pub record User : Type 0 where
  pub id : String
  pub status : String

pub record UserIdentity : Type 0 where
  pub user_id : String
  pub identity_type : String
  pub normalized_identifier : String
  pub verified_at : Option Time

pub record ProductEvent : Type 0 where
  pub event_name : String
  pub subject_hash : List ℕ
  pub environment : String
  pub occurred_at : Time
  pub seller_id : Option String

pub record MarketingContact : Type 0 where
  pub email : String
  pub confirmed_at : Option Time

pub record PushSubscription : Type 0 where
  pub user_id : String

pub record PushOutbox : Type 0 where
  pub event_key : String
  pub user_id : String
  pub booking_id : Option String
  pub kind : String
  pub due_at : Time

pub record SellerPayoutAccount : Type 0 where
  pub seller_id : String
  pub bank_code : String
  pub account_sealed : List ℕ
  pub account_name : String
  pub account_last4 : String
  pub bank_name : String
  pub destination_type : String
  pub usable_from : Time
  pub updated_at : Time
  pub provider : String
  pub country : String
  pub currency : String
  pub account_fingerprint : String
  pub verified_at : Time

pub record NoShowReport : Type 0 where
  pub booking_id : String
  pub reporter_user_id : String
  pub absent_role : String
  pub state : String
  pub dispute_reason : Option String
  pub resolves_at : Time
  pub resolution : Option String
  pub resolved_at : Option Time

-- `draws` counts the uuids that the database has generated. A table that is read in the order
-- of `created_at` has its rows in the order of their insertion.
pub record Db : Type 0 where
  pub draws : ℕ
  pub ledger_accounts : List LedgerAccount
  pub ledger_journals : List LedgerJournal
  pub ledger_entries : List LedgerEntry
  pub refunds : List Refund
  pub seller_recoveries : List SellerRecovery
  pub bookings : List Booking
  pub seller_profiles : List SellerProfile
  pub payment_allocations : List PaymentAllocation
  pub payment_attempts : List PaymentAttempt
  pub seller_payouts : List SellerPayout
  pub slot_reservations : List SlotReservation
  pub reschedule_requests : List RescheduleRequest
  pub cancellation_requests : List BookingCancellationRequest
  pub notification_outbox : List NotificationOutbox
  pub calendar_connections : List CalendarConnection
  pub calendar_jobs : List CalendarJob
  pub audit_events : List AuditEvent
  pub quotes : List Quote
  pub payment_exceptions : List PaymentException
  pub settlement_items : List SettlementItem
  pub availability_windows : List AvailabilityWindow
  pub availability_overrides : List AvailabilityOverride
  pub calendar_busy_blocks : List CalendarBusyBlock
  pub offers : List Offer
  pub users : List User
  pub user_identities : List UserIdentity
  pub product_events : List ProductEvent
  pub marketing_contacts : List MarketingContact
  pub push_subscriptions : List PushSubscription
  pub push_outbox : List PushOutbox
  pub seller_payout_accounts : List SellerPayoutAccount
  pub no_show_reports : List NoShowReport
