-- ===== src/Lib.antt =====
-- Verification library of GoCellProtocol: cells with owners, contracts and feeds, the chats
-- built on them, and the admission of the bridge channels between them.
--
-- A `GeneralCell` (general_cell.go) keeps values under key paths (keypath.go, value.go), signs
-- contracts for other identities (agreements.go), checks every access against its owner's signing
-- key (identity.go, identity_signing_challenge.go) or against those contracts, and publishes flow
-- elements to subscribers (flow.go, runtime.go). A bridge channel (interop/channel.go) admits a
-- connection from another node once it has proved a public key. A chat (chat.go) is a cell whose
-- contracts ask that their holder was invited: it issues signed invitations and takes signed
-- acceptances of them (interop/chat.go, interop/verify.go). A node finds its cells by name or by
-- endpoint (resolver.go), and its scaffold invokes them and stores their states and flows
-- (runtime.go).
--
-- Value, Value/*          value.go: JSON values, NormalizeJSON, access to fields and items
-- Value/Typed             value.go: TypedValue and its bridge form
-- KeyPath, KeyPath/*      keypath.go: parseKeyPath, GetKeyPath, SetKeyPath
-- Agreement/Permissions   agreements.go: permissionBits and permissionString, the wire form
-- Agreement/Grant         agreements.go, value.go: Grants, CoversExactly, CheckGrant
-- Agreement/Condition     agreements.go, value.go: conditionsMatch, templates, NewAgreement
-- Identity/Challenge      identity_signing_challenge.go: the validation of a challenge
-- Identity/Control        identity_signing_challenge.go: identityProvesSigningKeyControl
-- Identity/Replay         identity_signing_challenge.go: signingChallengeReplayStore
-- Identity/Store          identity.go: InMemoryIdentityVault
-- Flow, Flow/Replay       flow.go, and ReplayFlow of runtime.go
-- Cell                    general_cell.go: the state, NewGeneralCell, and the environment
-- Cell/Access             ValidateAccess, Get, Advertise
-- Cell/Contracts          Condition.Met, currentContracts, ContractAllows, RemoveContracts
-- Cell/Contracts/Conditions  proofs on Condition.Met
-- Cell/Contracts/Admission  AddAgreementAuthorizedBy
-- Cell/Storage            Set, TypeForKey, State and the registration of handlers
-- Cell/Flow               PushFlowElement, Flow, Close
-- Cell/Connections        Attach, Detach, Admit, GetOwner, IsMember and their kin
-- Cell/Steps              the operations of a cell as a step relation
-- Interop/Channel         interop/channel.go: messages and strict decoding
-- Interop/Channel/Server  interop/channel.go: ChannelServer
-- Interop/Channel/Client  interop/channel.go: ChannelClient
-- Interop/Channel/Challenge  interop/verify.go: ValidateSigningChallenge
-- Interop/Channel/Transcript  interop/channel.go: isUUID, channelTranscriptFromJSON
-- Interop/Chat            interop/verify.go: VerifyChatInvitation, VerifyChatAcceptance, and the
--                         artifacts of interop/models.go
-- Interop/Chat/Build      interop/chat.go: BuildChatInvitation, BuildChatAcceptance
-- Chat                    chat.go: the state of a ChatCell and its environment
-- Chat/People, Chat/Rows, Chat/Audience  chat.go: persons, their decoding, and the rows that are shown
-- Chat/Messages           chat.go: sendMessage, store, observe, publish
-- Chat/Invitations        chat.go: inviteIdentities, updateStatuses
-- Chat/Artifacts          chat.go: generateArtifacts, generateAcceptance, inspect
-- Chat/Accept             chat.go: acceptArtifact
-- Chat/Admission          chat.go: memberFor, AdmissionConditionHolds, setAdmissionConditions
-- Chat/Access             chat.go: validate
-- Chat/Read, Chat/Write   chat.go: read and write
-- Chat/Dispatch, Chat/New chat.go: admission, Get, Set, and NewChatCell
-- Chat/Laws/*             proofs on a chat: Sound and Life are its invariant over any calls
-- Resolver                resolver.go: routes, CellResolve, principal keys
-- Resolver/Registry       resolver.go: registration, remoteBridge, CellAtEndpoint, NamedCells
-- Resolver/Load           resolver.go: GetFromURL, SetIntoURL, LoadCell, loadReference
-- Scaffold                runtime.go: InMemoryStore, Scaffold
-- Scenarios, Scenarios/*  sample data and tests
--
-- Modelling. A method takes the cell and returns it changed; a Go error is its text, or in interop
-- its `Failure.Code`. Times are whole nanoseconds where the code has `time.Time` or seconds as a
-- float64, and the clock stands still during one call of a cell; a call of the channel server reads
-- each clock up to twice. Random bytes, fresh UUIDs, Ed25519, SHA-256, base64 and JSON texts are
-- arguments (`Crypto`, `Codec`, `Env`, `Wire`), and so are the handlers that a program registers.
-- A chat is a record around its cell; `Get` and `Set` of a chat are `chat_get` and `chat_set`, and
-- its cell reads conditions through `viewed`, for which contracts give no access. Artifacts take
-- their libraries from `ChatWire`, a chat the rest from `ChatEnv`: each draw of a UUID or a nonce has
-- a name there. `MessagesLimit` is not negative, and rows that sort alike keep the order of the map.
-- In Resolver and Scaffold a cell is a handle: what cells, factories, bridges and the URL parser
-- answer comes with each call (`World`, `Cells`).
-- A map is an association list; where Go ranges over a map, the order is that of the list. `int` is
-- unbounded, `uint64` sequence numbers wrap around at 2 ^ 64. No loop needs fuel: each runs over
-- the text, the list or the tokens it is given.
--
-- Not modelled: locks and goroutines (a call is one step; what a held lock blocks is an outcome of
-- `Flow`), the `agreements` map of a cell, which no operation uses, the URL rules of a channel
-- endpoint, the canonical JSON of interop, its tickets and identity links, the texts of
-- configurations, the bridges with the JSON text of their payloads, and the cells built on
-- `GeneralCell` other than the chat. A condition of a chat that is no admission could have its
-- reader seen, which is left out.
pub mod Prelude
pub mod Value
pub mod KeyPath
pub mod Agreement
pub mod Identity
pub mod Flow
pub mod Cell
pub mod Chat
pub mod Interop
pub mod Resolver
pub mod Scaffold
pub mod Scenarios
