-- ===== src/Jmap/Calls.antt =====
-- What the JMAP driver (internal/jmapdrv/jmap.go) asks for, as JSON values.
use yarilo_loadtest.Base.{Bool, true, false, List, [], ◌∷◌, ◌++◌, Bytes, codes, if◌then◌else◌, ℤ}

-- what `encoding/json` makes a text of
mutual
  pub data Value : Type 0 where
    null : Value
    truth : Bool → Value
    number : ℤ → Value
    text : Bytes → Value
    array : Values → Value
    object : Fields → Value

  pub data Values : Type 0 where
    end : Values
    item : Value → Values → Values

  pub data Fields : Type 0 where
    empty : Fields
    field : (name : Bytes) → Value → Fields → Fields

abbrev pub one : Value → Values
one v = item v end

abbrev pub array_of : List Value → Values
array_of [] = end
array_of (v ∷ vs) = item v (array_of vs)

-- a list of texts
abbrev pub texts : List Bytes → Values
texts [] = end
texts (s ∷ ss) = item (text s) (texts ss)

abbrev pub cap_core : Bytes
cap_core = codes "urn:ietf:params:jmap:core"

abbrev pub cap_mail : Bytes
cap_mail = codes "urn:ietf:params:jmap:mail"

-- a method call: its name, its arguments and its id
abbrev pub method : (name : Bytes) → Fields → (id : Bytes) → Value
method name arguments id = array (item (text name) (item (object arguments) (one (text id))))

-- a back-reference to the result of another call
abbrev pub result_of : (id name path : Bytes) → Value
result_of id name path = object (
    field (codes "resultOf") (text id)
      (field (codes "name") (text name) (field (codes "path") (text path) empty)))

-- the envelope of `call`
abbrev pub envelope : Values → Value
envelope calls = object (
    field (codes "using") (array (texts (cap_core ∷ cap_mail ∷ [])))
      (field (codes "methodCalls") (array calls) empty))

-- the call of Mailbox/get
abbrev pub mailbox_get : (account : Bytes) → Values
mailbox_get account = one (
    method (codes "Mailbox/get")
      (field (codes "accountId") (text account) (field (codes "ids") null empty)) (codes "m0"))

abbrev header_fields : List Bytes
header_fields =
    codes "id" ∷ codes "subject" ∷ codes "from" ∷ codes "receivedAt" ∷ codes "threadId" ∷ []

-- the arguments of Email/get
abbrev pub email_get : (account : Bytes) (fetch_bodies : Bool) → Fields
email_get account fetch_bodies = field (codes "accountId") (text account) (
    field (codes "#ids") (result_of (codes "q0") (codes "Email/query") (codes "/ids")) (
      if fetch_bodies
      then field (codes "fetchTextBodyValues") (truth true) (
          field (codes "properties")
            (array (texts (header_fields ++ codes "bodyValues" ∷ codes "textBody" ∷ []))) empty)
      else field (codes "properties") (array (texts header_fields)) empty))

-- the arguments of Email/query
abbrev pub email_query : (account : Bytes) (window : ℤ) → Fields
email_query account window = field (codes "accountId") (text account) (
    field (codes "sort")
      (array (
        one (
          object (
            field (codes "property") (text (codes "receivedAt"))
              (field (codes "isAscending") (truth false) empty)))))
      (field (codes "limit") (number window) empty))

-- the arguments of Thread/get
abbrev pub thread_get : (account : Bytes) → Fields
thread_get account = field (codes "accountId") (text account) (
    field (codes "#ids") (result_of (codes "g0") (codes "Email/get") (codes "/list/*/threadId"))
      empty)

-- the calls of the second request
abbrev pub chain : (account : Bytes) (window : ℤ) (fetch_bodies threads : Bool) → Values
chain account window fetch_bodies threads =
    item (method (codes "Email/query") (email_query account window) (codes "q0")) (
      item (method (codes "Email/get") (email_get account fetch_bodies) (codes "g0")) (
        if threads
        then one (method (codes "Thread/get") (thread_get account) (codes "t0"))
        else end))
