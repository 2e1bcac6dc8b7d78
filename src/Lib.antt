-- ===== src/Lib.antt =====
-- The GITB test bed: the plugins of its user interface, and the core of its engine.
--
-- The repository holds a test bed: an engine (gitb-engine), its data types (gitb-core), messaging
-- layers and validators, and a web interface (gitb-ui). All JavaScript of the repository belongs to
-- the theme of the interface's pages, most of it plugins of other authors that are kept as
-- readable source; four of them that have state of their own are modelled. Of the engine, which is
-- Java, the actors that execute the steps of a test, the sessions, the scopes of variables
-- and the ids of the steps are modelled. The rest of the repository is not: the other parts of the
-- engine, the layers and the validators, the interface's own server and client in Scala and
-- CoffeeScript, and the other scripts, which are copies of jQuery, Bootstrap, MediaElement,
-- Isotope and the like.
--
-- Carousel: gitb-ui/app/assets/components/owl-carousel/owl.carousel.js
--   Carousel/State       the object `Carousel`, `$.fn.owlCarousel.options`, and the data and
--                        classes that jQuery keeps on the elements
--   Carousel/Layout      calculateAll, calculateWidth, appendWrapperSizes, appendItemsSizes, loops
--                        and max
--   Carousel/Breakpoints updateItems
--   Carousel/Controls    buildControls, updatePagination, checkPagination, checkNavigation and
--                        updateControls
--   Carousel/AutoPlay    stop, play, checkAp and stopOnHover
--   Carousel/Lazy        lazyLoad, lazyPreload, checkLazyImage and onVisibleItems
--   Carousel/Moves       goTo, jumpTo, next, prev, afterGo, singleItemTransition, updatePosition,
--                        updateVars and eachMoveUpdate
--   Carousel/Events      the handlers of customEvents, buildButtons and buildPagination, and what
--                        timers and animations call
--   Carousel/Startup     setVars, onStartup, wrapItems, eventTypes, addItem and removeItem
--   Carousel/Drag        dragStart, dragMove, dragEnd, getNewPosition, closestItem, moveDirection
--   Carousel/Session     response, and the step relation of what happens to a carousel and its
--                        drags, in any order
-- A handler is a function from carousels to carousels, and calls others as the source does:
-- every move ends in afterGo, which updates the controls and the visible items, and restarts
-- automatic play.
--
-- What the model takes from the page. A setter of jQuery writes a field; the timers, the ends of
-- animations and the user's actions are events, in any order; widths and pointers are whole pixels,
-- given from outside. Positions are integers, counts are natural numbers, and neither
-- overflows in the source. Elements are visible, so that watchVisibility returns false. The
-- options are of the types that the defaults have, and `autoPlay` is false or a period, as
-- onStartup makes it. The user's callbacks do not call back into the carousel: that they
-- are called is recorded, and nothing else. Array.sort is stable. With no item to show, a
-- width is divided by 0: Infinity and NaN are 0 there, and the theorems ask for an item to show
-- where it matters.
--
-- The wrapper has one place: css_left or css_transform, by the browser, until a drag writes over
-- it, and again from the next move on. An animation of `left` is shown by where it leads to.
-- In Carousel/Session the polls of images are left out, since they change no more than what is
-- known of an item's image.
--
-- Not modelled of the carousel: loadContent (AJAX), checkBrowser (feature tests), the making of
-- elements, autoHeight (it only measures, and is recorded as a call), reinit, destroy,
-- and the styles.
-- Loops are structural recursion on the list or on the number of rounds that are left, so that no
-- fuel is needed.
--
-- Knob: gitb-ui/app/assets/components/jquery.knob.js
--   Knob/State   the object of `k.o` and `k.Dial`, and its options
--   Knob/Value   _validate, val, change, init, cancel, and the end of xy2val
--   Knob/Input   the handlers of _mouse and _touch, of the wheel and the keys in listen, and of
--                the input in run
--   Knob/Events  what reaches a dial, and runs of it
-- Values, steps and distances are whole numbers, quotients are exact, and `~~` keeps 32 bits.
-- The user's hooks are functions among the options, which may refuse. A press of the mouse or a
-- touch ends before the next begins. The angle in xy2val (atan2) is not modelled: where the
-- pointer is on the dial is given as the value before the stopper. Painting and sizes are not
-- modelled, nor are dials on a fieldset.
--
-- Appear: gitb-ui/app/assets/components/jquery.appear.js
--   `$.fn.appear` with its checks, checkAll and run. The list `checks` and the handlers of the
--   window are flags of the watches, which stand in the order in which they were made.
--
-- Flipshow: gitb-ui/app/assets/components/circle-flip-slideshow/js/jquery.flipshow.js
--   Flipshow          $.Flipshow: _init, _addNav, _layout, _navigate, _flip and _ontransitionend
--   Flipshow/Images   $.fn.imagesLoaded
--   Flipshow/Plugin   both together: the slides wait for their images
-- The plugin is called on an element once. Which items are shown is a function from their
-- numbers; the timers and the handlers of a transition's end are lists of what they have
-- captured. The ends of transitions and the events of images are given from outside, in any
-- order. The overlays, progress of the promise, and calls of methods by name are not modelled.
--
-- Engine: gitb-engine/src/main/java/com/gitb/engine/
--   Engine            AbstractTestStepActor: what an actor sends, and onReceive
--   Engine/Children   the events of children, as the proofs read them
--   Engine/Sequence   SequenceProcessorActor, which GroupStepProcessorActor extends
--   Engine/Flow       FlowStepProcessorActor
--   Engine/Loop       WhileStepProcessorActor, RepeatUntilStepProcessorActor and checkIteration
--   Engine/ForEach    ForEachStepProcessorActor
--   Engine/Branch     IfStepProcessorActor
--   Engine/Processor  AbstractProcessorActor
--   Engine/Run        trees of steps, executed by these actors; Run/Plain says what they mean
--   Engine/Ids        the ids of TestCaseUtils.convertSequence and those of the actors
--   Engine/Session    SessionActor
--   Engine/Scope      TestCaseScope
-- A handler of an actor is a function from its state and a message to the new state and the
-- messages that it sends, with those that were sent before an exception. An actor knows its
-- children by their uids, which are numbers. Akka delivers the messages of one actor to another in
-- order, and an actor handles one message at a time; which message comes next is given from
-- outside: the theorems on an actor take its messages as a list.
-- In Engine/Run a child that is started is run to its end before its parent goes on. That is
-- all that can happen where an actor has one child at work, so flow steps are left out
-- there. What a processor does and what a condition is worth are functions of a world that the
-- steps change; conditions only read it. The drive of an actor has fuel for each start of a
-- child and for its end: the number of steps of a sequence, or the limit of iterations, and one or
-- two more. That this is enough is what the theorem on the ends of steps shows. The limit
-- (TestEngineConfiguration.ITERATION_LIMIT) is any number.
-- What a session receives says too whether destroying the context, or the report of a preliminary
-- status, returns then, since both call other parts that may throw; when the actor of the test ends is an input of its own. An
-- exception out of onReceive restarts the session's actor with a new actor of the test, as
-- Akka does by default.
-- The text of an id is left as the list of its parts. Scopes are numbered in the order in
-- which they are created, and names of variables are numbers, since they are only
-- compared; a search has the number of scopes as fuel, which Scope/Fuel shows to be enough.
--
-- Not modelled of the engine: call and exit steps as actors, interactions, the messaging
-- and verification of processors, reports beyond their result, expressions, TestCaseContext
-- beyond its state, and the actor of a whole test.
pub mod Base
pub mod Carousel
pub mod Knob
pub mod Appear
pub mod Flipshow
pub mod Engine
