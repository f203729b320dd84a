-- ===== src/Lib.antt =====
-- LivePoll, modelled and verified: frontend/src, a React application that creates polls, casts votes and
-- shows results live over WebSockets, and of the backend, a Go server, the services of polls, votes and
-- accounts and the rooms of the WebSockets.
--
-- The program's parts. `services/api.js` turns calls into HTTP requests and their answers into
-- values or errors. `context/AuthContext.jsx` keeps the session, and `App.jsx` the view and the
-- address. The pages keep their own state and call the client. The hook
-- `hooks/usePollLiveResults.js` feeds the page of the results from the REST interface and from a
-- socket that it opens again when it closes. On the server the handlers check a request and call the
-- services, which keep polls, votes and accounts in maps; a room of the hub sends the results and
-- the changes of status to the clients that watch a poll.
--
-- How the files correspond to the code. What a component keeps is a record (`useState`, `useRef`,
-- and `localStorage` where it is used). An asynchronous handler is cut at its `await`: one function
-- for the part before, with the call that is made, and one for the part after, which takes the
-- answer (`Result`). Rendering is a function from the state to data: texts, sections and buttons.
-- A function has the name that it has in the source, in the spelling of this library.
--   Models      backend/internal/models/{poll,user}.go: the documents of the answers
--   Api         frontend/src/services/api.js: Api/Base for the addresses (`getCleanApiBase`,
--               `getCleanWsBase`), Api/Storage for `getVoterFingerprint` and `localStorage`,
--               Api/Request for `request` and `api`
--   Live        frontend/src/hooks/usePollLiveResults.js: `step` is one event of the hook, with
--               `connect_ws` for `connectWs` and `on_message`, `on_close`, ... for the handlers of
--               the socket; Live/Backoff for the delay and Live/Url for the address of the socket
--   Create      frontend/src/pages/CreatePoll.jsx
--   Vote        frontend/src/pages/VotePage.jsx: Vote/State for the state and the handlers,
--               Vote/Screen for what is rendered
--   Results     frontend/src/pages/ResultsPage.jsx
--   Dashboard   frontend/src/pages/Dashboard.jsx
--   Auth        frontend/src/context/AuthContext.jsx (Auth/Session), and the forms of
--               frontend/src/pages/Login.jsx and Register.jsx (Auth/Forms)
--   App         frontend/src/App.jsx (App/Router, App/Params), the buttons of
--               frontend/src/components/Navbar.jsx and frontend/src/pages/Home.jsx (App/Links), and
--               frontend/src/components/ShareModal.jsx (App/Share, App/Dialogue); App/Pages for what
--               the home page and the frame show, and for the buttons that lead from page to page
--   Voting      backend/internal/services/vote_service.go with `GetPoll` and `UpdateVotesInDB` of
--               poll_service.go, in a server without Redis and MongoDB (the fallback in memory);
--               Voting/Redis for the same in a server with Redis, whose commands are a record
--               (Redis/Concurrent for the commands of several votes at a time, Redis/Offline and
--               Redis/Flapping for a Redis that does not answer);
--               Voting/Handler for `CastVote` of backend/internal/handlers/vote_handler.go. Each
--               operation is one step, and the goroutine that a vote starts is another; what other
--               requests do between the locks of one vote is left out.
--               Voting/Subscribers for the channels of the rooms; Voting/Ballots is the box of
--               ballots that the service stands for, and Voting/Urn forgets their order
--   Polls       the rest of backend/internal/services/poll_service.go on the same state, the binding of
--               its requests (Polls/Binding), and backend/internal/handlers/poll_handler.go
--               (Polls/Handler); Polls/Refinement shows a box of ballots behind these and the
--               votes (Polls/Boxes); Polls/Posting puts the form of the client beside it; Polls/Mongo
--               for the service in a server with MongoDB, whose calls are a record
--   Accounts    backend/internal/services/auth_service.go and backend/internal/handlers/auth_handler.go;
--               Accounts/Middleware for backend/internal/middleware/auth_middleware.go, Accounts/Mongo
--               for `Register` and `Login` in a server with MongoDB
--   Routes      the routes of backend/cmd/server/main.go behind
--               backend/internal/middleware/cors_middleware.go and auth_middleware.go; Routes/Reach
--               puts the calls of the client beside them
--   Hub         a room of backend/internal/websocket/hub.go, with the pumps of client.go and
--               backend/internal/handlers/ws_handler.go: `step` is one turn of `runRoom`, or of
--               a goroutine beside it; Hub/Rooms for `GetOrCreateRoom` and the cleanup; Hub/Writer
--               for the loop of `WritePump`; Hub/Viewers, Hub/Reach and Hub/Listener (with Redis) go
--               on to the hook of the client
--   Prelude     shared helpers: texts, lists and decimal numbers
-- The other files below a component prove what their names say; the files called Tests apply the
-- theorems to concrete inputs.
--
-- Bounds. Numbers are natural numbers; the `int64` counts of the backend are the numbers of their 64
-- bits, and their sums wrap around. The delay of a reconnection is a whole number of
-- milliseconds: the fraction of `1000 * 1.5 ^ n` is above the cap wherever it is not zero. The only
-- fuel is that of the digits of a number in Prelude/Decimal: one more than the number, which has
-- fewer digits than that.
--
-- What is not modelled. A text is a sequence of Unicode scalar values: lone surrogates are left
-- out, and lengths count UTF-16 units in the client, as JavaScript does, and
-- characters in the server. `toLowerCase`, the decoding of
-- percent-escapes and the quotient in double precision are parameters. `fetch`, `WebSocket`, the
-- timers and the clipboard are outside: their answers are events. Bodies of requests are values
-- and not JSON text, and a successful answer is the document that the call asks for. Markup,
-- styles, confetti, QR codes and dates are left out. Redis, MongoDB and the router of the server are
-- libraries: a theorem that needs them takes what they do as a hypothesis. The start of the server, its configuration and its connections to Redis and MongoDB
-- are not modelled. Password hashes, tokens, identifiers, the validator's test of an address and the lower case
-- of Go are parameters, and so are the text of a message and what `JSON.parse` makes of a text. Of the
-- hub, deadlines are left out, and pings everywhere but in Hub/Writer.
pub mod Prelude
pub mod Models
pub mod Api
pub mod Live
pub mod Create
pub mod Vote
pub mod Results
pub mod Routes
pub mod Dashboard
pub mod Auth
pub mod App
pub mod Voting
pub mod Polls
pub mod Accounts
pub mod Hub
