-- ===== src/Lib.antt =====
-- Verification of WhatsApp Bots SaaS, a service where an owner builds a WhatsApp bot and a public
-- booking page. Two of its programs are modelled. The front end is a React application in TypeScript
-- (frontend/src); what is modelled is its own logic: dates, the bot's configuration and its editor,
-- the failures of API calls, the owner's gallery, the public booking flow and its theme, the search
-- and the lists of the leads, the session, and the accessibility widget. The gateway is a service in
-- JavaScript (gateway/src) that holds one WhatsApp socket for each business and passes messages
-- between WhatsApp and the backend.
--
-- The parts and where they are modelled:
--   Base, Text, Dict   helpers: numbers, lists and options; strings as lists of UTF-16 code units;
--       objects used as maps, as the list of their entries in the order of insertion.
--   Dates              frontend/src/lib/bookingDates.ts. `toDateString` is `to_date_string` and so on;
--       Dates.Civil models the local fields of a JavaScript date.
--   Api                frontend/src/lib/apiClient.ts and friendlyError.ts: `request`, `ApiError`, the
--       demo guard and `toFriendlyError`.
--   Bot.Config         frontend/src/botbuilder/types.ts and config.ts: `uniqueKey`, `emptyFlow`,
--       `normalizeSettings`.
--   Bot.Accepted       backend/app/models/bot_builder.py: what the server takes for a flow.
--   Bot.Steps          frontend/src/components/botbuilder/StepsEditor.tsx: the accordion of steps.
--   Bot.Builder        frontend/src/pages/BotBuilderPage.tsx: the page's state and its handlers as
--       events (`handle`), with the effect that folds the type editor (`step`).
--   Gallery            frontend/src/components/booking/setup/GalleryManager.tsx: uploads, captions, the
--       order of the images and its PATCH requests.
--   Booking.Form       the checks and the request body of
--       frontend/src/components/booking/BookingFlow.tsx.
--   Booking.Flow       the same file's slot requests with their clean-ups, and the submission;
--       Booking.Flow.Events has its handlers as events.
--   Booking.Availability  the same file's requests for the days of the visible month.
--   Fetch              the calls that an effect makes and its clean-up cancels; Booking.Flow,
--       Booking.Availability and Leads.Page use it.
--   Booking.Calendar   frontend/src/components/booking/AvailabilityCalendar.tsx: the buttons of the days.
--   Booking.Hours      frontend/src/components/booking/WorkingHoursEditor.tsx: the ranges of a day.
--   Booking.Services   frontend/src/components/booking/ServicesEditor.tsx; Booking.Setup is
--       BookingSettingsPanel.tsx.
--   Booking.Manage     frontend/src/pages/PublicManagePage.tsx and its RescheduleDialog.tsx.
--   PageTheme          frontend/src/components/booking/public/pageTheme.ts: palettes and radius.
--   Leads              frontend/src/dashboard/types.ts and leadSearch.ts, and the list of
--       frontend/src/pages/LeadsPage.tsx; Leads.Page has its filters, requests and
--       counts, and Leads.Contact is frontend/src/lib/waLink.ts.
--   Session            frontend/src/auth/AuthContext.tsx, the gates frontend/src/components/AuthGate.tsx
--       and AdminGate.tsx, and frontend/src/dashboard/UnreadContext.tsx.
--   Conversations      frontend/src/pages/ConversationsPage.tsx is Page;
--       frontend/src/components/dashboard/ConversationCard.tsx and ChatPanel.tsx are Card and Chat.
--   Accessibility      frontend/src/lib/useA11yPreferences.ts.
--   Gateway.Contract   gateway/src/contract.js: what a message holds, which attachments are taken, the
--       body of the webhook; Gateway.Value has the objects of JavaScript.
--   Gateway.Inbound    `handleInbound` and what it calls, gateway/src/session.js, as effects in order.
--   Gateway.Sending    `enqueueSend`, `rememberSentMessage` and `sendReplies`, the same file.
--   Gateway.Upsert     `messages.upsert`, the same file.
--   Gateway.Recovery   `handleDecryptFailure`, the same file.
--   Gateway.Lifecycle  `start`, `restart`, `stop` and the events of the connection, the same file.
--   Gateway.AuthStore  gateway/src/dbAuthState.js: the keys, the debounced saves and their arrival.
--   Gateway.Manager    gateway/src/manager.js; Gateway.Routes is routes.js.
--   Gateway.InternalApi  gateway/src/internalApi.js and webhook.js; Gateway.Settings is config.js.
--
-- In the gateway the manager starts and stops the sessions, a session receives through Inbound and
-- sends through Sending, clears keys of its credential store through Recovery, and reports through
-- InternalApi; the routes send through a session of the manager. What a promise resolves to and when
-- is an input: an event of Lifecycle and AuthStore, a job of Sending. An exception is `none`.
--
-- The page of the builder uses the configuration and the steps; the gallery, the builder and the
-- booking flow take the failures of Api. A handler of a component is a function on the component's
-- state, and an answer of the server is an argument of the function that handles it. State updates
-- and the effects that they set off are one step.
--
-- Bounds and fuel. `uniqueKey` tries 998 numbers, as the source does; printing a number has as much
-- fuel as the number, which is more than its digits. Years are natural numbers; a theorem about texts
-- of dates asks for four digits, and one about `new Date(year, …)` for a year of at least 100, since
-- JavaScript adds 1900 to smaller ones. Numbers are not bounded otherwise: the source uses no
-- arithmetic near 2^53.
--
-- The gateway peels at most five wrappers, as the source does; its delays are exact numbers, where the
-- source computes with doubles, which agree with them as far as the cap of a minute. Objects that come
-- from WhatsApp or the backend are values of Gateway.Value, whose comment names what it leaves out.
--
-- Not modelled: markup and styling; Hebrew sentences that no code looks into, which are constructors
-- of a data type; the browser's `fetch`, canvas and timers; the gateway's logging and
-- the libraries that it calls; the database and the back end, which other languages implement, but for
-- what it takes as a flow. The clock is an argument.
pub mod Base
pub mod Text
pub mod Conversations
pub mod Dates
pub mod Fetch
pub mod Bot
pub mod Api
pub mod Dict
pub mod Gallery
pub mod Gateway
pub mod Booking
pub mod PageTheme
pub mod Accessibility
pub mod Leads
pub mod Session
