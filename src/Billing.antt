-- ===== src/Billing.antt =====
-- Billing in web/: the plans of web/config.ts, the calls of Stripe in web/libs/stripe.ts, the routes
-- in web/app/api/stripe and the webhook web/app/api/webhook/stripe/route.ts. Stripe and Supabase are
-- parameters: what they answer is a function of what is asked, and what the code writes is a list of
-- effects.
pub mod Plans
pub mod Checkout
pub mod Webhook
pub mod Grants
pub mod Own
pub mod Tests
