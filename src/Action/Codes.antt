-- ===== src/Action/Codes.antt =====
-- Actions against their codes.
use arbitro.Common.{
  All, ap, false, lookup, lookup-coded, not, refl, some, sym, ℕ, ◌&&◌, ◌/◌, ◌==◌, ◌||◌, ◌↔◌, ◌∙◌,
  ◌≡◌,
}
use arbitro.Action.{
  Action, ack, ack_batch, ack_batch_resp, ack_state_rep, ack_state_req, ack_term, arms, as_u16,
  auth, batch_ack, batch_nack, consumer_stats, create_consumer, create_cron, create_stream,
  cron_ack, cron_fire, delete_consumer, delete_cron, delete_message, delete_stream, deliver,
  disconnect, drain_subject, fanout_batch, from_u16, get_consumer, get_stream, has_subject, hello,
  is_publish, list_consumers, list_crons, list_streams, nack, pause_consumer, ping, pong, publish,
  publish_batch, publish_delayed, publish_with_reply, purge_stream, rep_batch, rep_error, rep_ok,
  rep_subscribe_batch, resume_consumer, subscribe, subscribe_batch, unsubscribe,
}

-- Every action is read back from its code.
from_u16-as_u16 : (a : Action) → from_u16 (as_u16 a) ≡ some a
unfolding from_u16 as_u16 lookup
from_u16-as_u16 publish = refl
from_u16-as_u16 publish_batch = refl
from_u16-as_u16 publish_with_reply = refl
from_u16-as_u16 hello = refl
from_u16-as_u16 auth = refl
from_u16-as_u16 deliver = refl
from_u16-as_u16 ack = refl
from_u16-as_u16 nack = refl
from_u16-as_u16 rep_ok = refl
from_u16-as_u16 rep_error = refl
from_u16-as_u16 rep_batch = refl
from_u16-as_u16 batch_ack = refl
from_u16-as_u16 fanout_batch = refl
from_u16-as_u16 batch_nack = refl
from_u16-as_u16 ack_term = refl
from_u16-as_u16 subscribe = refl
from_u16-as_u16 unsubscribe = refl
from_u16-as_u16 subscribe_batch = refl
from_u16-as_u16 rep_subscribe_batch = refl
from_u16-as_u16 create_stream = refl
from_u16-as_u16 delete_stream = refl
from_u16-as_u16 get_stream = refl
from_u16-as_u16 list_streams = refl
from_u16-as_u16 purge_stream = refl
from_u16-as_u16 drain_subject = refl
from_u16-as_u16 delete_message = refl
from_u16-as_u16 create_consumer = refl
from_u16-as_u16 delete_consumer = refl
from_u16-as_u16 get_consumer = refl
from_u16-as_u16 list_consumers = refl
from_u16-as_u16 consumer_stats = refl
from_u16-as_u16 pause_consumer = refl
from_u16-as_u16 resume_consumer = refl
from_u16-as_u16 ping = refl
from_u16-as_u16 pong = refl
from_u16-as_u16 disconnect = refl
from_u16-as_u16 publish_delayed = refl
from_u16-as_u16 create_cron = refl
from_u16-as_u16 delete_cron = refl
from_u16-as_u16 list_crons = refl
from_u16-as_u16 cron_fire = refl
from_u16-as_u16 cron_ack = refl
from_u16-as_u16 ack_state_req = refl
from_u16-as_u16 ack_state_rep = refl
from_u16-as_u16 ack_batch = refl
from_u16-as_u16 ack_batch_resp = refl

arms-coded : All (λ e. as_u16 e.1 ≡ e.0) arms
unfolding as_u16
arms-coded = (
  refl,
  (
    refl,
    (
      refl,
      (
        refl,
        (
          refl,
          (
            refl,
            (
              refl,
              (
                refl,
                (
                  refl,
                  (
                    refl,
                    (
                      refl,
                      (
                        refl,
                        (
                          refl,
                          (
                            refl,
                            (
                              refl,
                              (
                                refl,
                                (
                                  refl,
                                  (
                                    refl,
                                    (
                                      refl,
                                      (
                                        refl,
                                        (
                                          refl,
                                          (
                                            refl,
                                            (
                                              refl,
                                              (
                                                refl,
                                                (
                                                  refl,
                                                  (
                                                    refl,
                                                    (
                                                      refl,
                                                      (
                                                        refl,
                                                        (
                                                          refl,
                                                          (
                                                            refl,
                                                            (
                                                            refl,
                                                            (
                                                            refl,
                                                            (
                                                            refl,
                                                            (
                                                            refl,
                                                            (
                                                            refl,
                                                            (
                                                            refl,
                                                            (
                                                            refl,
                                                            (
                                                            refl,
                                                            (
                                                            refl,
                                                            (
                                                            refl,
                                                            (
                                                            refl,
                                                            (
                                                            refl,
                                                            (refl, (refl, (refl, (refl, tt)))),
                                                            ),
                                                            ),
                                                            ),
                                                            ),
                                                            ),
                                                            ),
                                                            ),
                                                            ),
                                                            ),
                                                            ),
                                                            ),
                                                            ),
                                                          ),
                                                        ),
                                                      ),
                                                    ),
                                                  ),
                                                ),
                                              ),
                                            ),
                                          ),
                                        ),
                                      ),
                                    ),
                                  ),
                                ),
                              ),
                            ),
                          ),
                        ),
                      ),
                    ),
                  ),
                ),
              ),
            ),
          ),
        ),
      ),
    ),
  ),
)

-- `from_u16` reads a code as an action exactly if it is the code of that action: both directions
-- agree on every code, and no two actions share one.
from_u16_iff : (v : ℕ) (a : Action) → (from_u16 v ≡ some a) ↔ (as_u16 a ≡ v)
unfolding from_u16
from_u16_iff v a = (
  lookup-coded as_u16 arms v a arms-coded,
  λ p. ap (λ w. lookup w arms) (sym p) ∙ from_u16-as_u16 a,
)

-- The publish family is what has a code of the families 1 and 8, and every frame of it carries a
-- subject.
pub is_publish-family :
    (a : Action)
    → (is_publish a ≡ (as_u16 a / 256 == 1 || as_u16 a / 256 == 8))
      × ((is_publish a && not (has_subject a)) ≡ false)
unfolding is_publish as_u16 has_subject
is_publish-family publish = (refl, refl)
is_publish-family publish_batch = (refl, refl)
is_publish-family publish_with_reply = (refl, refl)
is_publish-family hello = (refl, refl)
is_publish-family auth = (refl, refl)
is_publish-family deliver = (refl, refl)
is_publish-family ack = (refl, refl)
is_publish-family nack = (refl, refl)
is_publish-family rep_ok = (refl, refl)
is_publish-family rep_error = (refl, refl)
is_publish-family rep_batch = (refl, refl)
is_publish-family batch_ack = (refl, refl)
is_publish-family fanout_batch = (refl, refl)
is_publish-family batch_nack = (refl, refl)
is_publish-family ack_term = (refl, refl)
is_publish-family subscribe = (refl, refl)
is_publish-family unsubscribe = (refl, refl)
is_publish-family subscribe_batch = (refl, refl)
is_publish-family rep_subscribe_batch = (refl, refl)
is_publish-family create_stream = (refl, refl)
is_publish-family delete_stream = (refl, refl)
is_publish-family get_stream = (refl, refl)
is_publish-family list_streams = (refl, refl)
is_publish-family purge_stream = (refl, refl)
is_publish-family drain_subject = (refl, refl)
is_publish-family delete_message = (refl, refl)
is_publish-family create_consumer = (refl, refl)
is_publish-family delete_consumer = (refl, refl)
is_publish-family get_consumer = (refl, refl)
is_publish-family list_consumers = (refl, refl)
is_publish-family consumer_stats = (refl, refl)
is_publish-family pause_consumer = (refl, refl)
is_publish-family resume_consumer = (refl, refl)
is_publish-family ping = (refl, refl)
is_publish-family pong = (refl, refl)
is_publish-family disconnect = (refl, refl)
is_publish-family publish_delayed = (refl, refl)
is_publish-family create_cron = (refl, refl)
is_publish-family delete_cron = (refl, refl)
is_publish-family list_crons = (refl, refl)
is_publish-family cron_fire = (refl, refl)
is_publish-family cron_ack = (refl, refl)
is_publish-family ack_state_req = (refl, refl)
is_publish-family ack_state_rep = (refl, refl)
is_publish-family ack_batch = (refl, refl)
is_publish-family ack_batch_resp = (refl, refl)
