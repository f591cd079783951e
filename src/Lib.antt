-- ===== src/Lib.antt =====
-- Verification library of the deliveryways backend, a food ordering service on NestJS and Prisma.
--
-- The program keeps restaurants, branches and their menus, takes orders with coupons, loyalty points
-- and a wallet, and follows an order from placing to handing over. Its modules call one another as
-- services. The order service asks the coupons for the best promotion and the loyalty wallet for a
-- quote, has the wallet debited at checkout, and tells notifications, chat and tracking of a change;
-- the payments make the wallet award points for a paid order and give benefits back for a reversed
-- one.
--
-- What models what:
--   Prelude: Boolean tests, lists, integers, texts, results of calls that may throw.
--   Auth: the identity of a request and its roles (src/common).
--   Wallet: src/modules/loyalty-wallet. Store has the tables and the actions over them, with
--     `transaction` for prisma.$transaction: a throw undoes what the callback wrote. Accounts has
--     the accounts and adjustments (ensureWalletAccount, adjustCustomerWallet, applyWalletTopUp and
--     the rest), GiftCards the cards (redeemGiftCardToWallet, purchaseGiftCardFromWallet),
--     OrderBenefits the quote, the checkout, the award, the reversal and the conversion of points.
--     The other children prove: Reconciled, Keeps and the Laws that each operation keeps the books,
--     History the same for any sequence, Observe and RoundTrip what a reversal gives back, Once what
--     a repetition does, GiftCardUse, QuoteLaws and ScopeLaws what their names say.
--   Orders: src/modules/orders. Status has the statuses and the table of moves, Store the rows, Access
--     the access checks, Handlers updateStatus, cancel, assignDeliveryman and
--     acceptDeliverymanOrder, Deals allocateFixedDealTotal, Delivery the fee of a delivery and whether
--     an address is covered, with the distances and polygons as a parameter. Transitions, Moves,
--     Lifecycle, Final, Authority and DeliveryLaws prove; a request there is one to these four
--     handlers. The payment service writes the status of an order too, as Payments has it.
--   Branches: src/modules/branches. DeliveryConfiguration has assertValidDeliveryConfiguration on
--     typed settings; Bands proves what the order service relies on.
--   Coupons: src/modules/coupons. Rows has the inputs, Schedule the times, Eligible the part of an
--     order that a coupon is about, Validate validateResolvedCoupon and findBestAutoApplyPromotion.
--     Laws and Best prove.
--   Guards: src/common/guards. TenantAccess has tenant-access.guard.ts, on what it reads of a
--     request, where an empty text counts as absent but in the fields that the guard reads with ??;
--     TenantLaws proves. Accounts has jwt-auth.guard.ts and verified-user.guard.ts, with the
--     validity of the token as an argument; AccountLaws proves.
--   Payments: src/modules/payments. Store has the tables, among them those of the order service and of
--     the wallet, whose columns of one order's row they share; Access the access checks, Handlers
--     markPaid, fail, cancel, refund and the restaurant's credit, Webhooks updateStatus and what
--     Stripe reports, Payouts the manual payout requests. Books, Keeps, Checks and the Laws prove that
--     each call keeps the ledgers, History the same for any sequence, Refunded what a refund does,
--     Moves how a payout request moves.
--   Modifiers: the limits on an item's modifiers, which src/modules/cart and src/modules/orders each
--     check for themselves. Rows has the inputs, Limits the checks of both (order_... and cart_...)
--     with the loop that they share; Laws, Refines and Grouping prove.
--   GroupOrders: src/modules/group-orders. Store has the tables and the order service as this one
--     uses it, Handlers the calls about a session; Wellformed, Keeps, History and Authority prove.
--   Inventory: src/modules/inventory/movement. Movements has the handler, Laws proves.
--   The modules named Tests run the definitions on concrete inputs.
--
-- How it is modelled. Money is in cents, as the Decimal(10, 2) columns hold it; points are
-- integers; the points for a currency unit are in hundredths. Identifiers are only compared, and
-- stand as numbers; a moment is its milliseconds since 1970, and the current time is an argument.
-- Texts are lists of characters, trimmed and put in upper case as ASCII. Amounts in requests are
-- not negative and have two decimals; but the amount that a quote asks from the wallet, which the
-- DTO lets have any, is in ten-thousandths of a cent, and the quantity of an inventory movement in
-- ten-thousandths of the last decimal of its column. These two are only compared with whole
-- numbers, added to and taken from them, and rounded, so that an amount finer still behaves as one
-- on the same side of the whole and the half. Number() and the floor on it are taken as exact, as
-- are the divisions of Decimal, which has 20 digits. A handler of an order reads and checks first
-- and writes once, so it is a function to the tables or an error; the wallet's operations are
-- actions with the tables before and after. Operations run one after the other: the isolation of
-- concurrent transactions is the database's. The summary with which the adjustment of points
-- answers is read outside its transaction, and left out. The balances of a profile from before the
-- ledger, and the currency of a new wallet, are read as fields of the tables. The random part of a
-- gift card's code is an argument, one draw for each of the five attempts that the code makes.
-- What Stripe answers is an argument of the calls that ask it. A payment found by its reference is
-- the oldest with it, since the query has no order; a payment's data are what the service reads of
-- them. For a group order, what the order service answers of an item or a checkout, and whether
-- the branch is open, are arguments. Quantities of goods are in thousandths, distances in metres.
-- How far two points are apart and what a polygon has inside are floating-point computations, and
-- are parameters.
--
-- Not modelled: notes, audit columns and composed answers; queries and listings; the settings of
-- the loyalty program; the start of a payment, the provider configuration and the automated
-- payouts, which are calls of Stripe and PayPal; the creation of an order and its prices but for
-- the deals and the delivery; the creation and the settings of a group order; the calls that the
-- handlers make of notifications, chat and tracking, which are recorded at most and not carried
-- out. The guard of roles and permissions, the storage of carts, point of sale, chat, menu,
-- accounts and administration have no model yet.
pub mod Prelude
pub mod Auth
pub mod Wallet
pub mod Orders
pub mod Coupons
pub mod Guards
pub mod Payments
pub mod Modifiers
pub mod GroupOrders
pub mod Inventory
pub mod Branches
